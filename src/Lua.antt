-- ===== src/Lua.antt =====
-- lua_util.h, and what every module of the library shares with Lua: the values that a C function
-- pushes, and how a call of one ends. `strerror` belongs to the C library, and is a parameter.
use Prim.Native.Char.{code}
use Prim.Native.String.{String}
use lua_xlib.Base.{
  ℕ, List, [], ◌∷◌, ◌++◌, Option, none, some, ◌==◌, if◌then◌else◌, Bool, false, true, ◌≡◌, ◌≢◌,
}
use lua_xlib.Base.Int.{ℤ, pos, negsuc}

-- A Lua string holds any bytes.
abbrev pub Bytes : Type 0
Bytes = List ℕ

-- The bytes of a C string literal. It stays shut, so that a message is compared as a whole.
unfoldable pub text : String → Bytes
text String.[] = []
text (String.◌∷◌ c s) = code c ∷ text s

-- A C string: the bytes before the first zero.
abbrev pub c_string : Bytes → Bytes
c_string [] = []
c_string (b ∷ bs) = if b == 0 then [] else b ∷ c_string bs

mutual
  pub data LuaValue : Type 0 where
    nil : LuaValue
    boolean : Bool → LuaValue
    integer : ℤ → LuaValue
    string : Bytes → LuaValue
    table : Fields → LuaValue

  pub data Fields : Type 0 where
    end : Fields
    field : LuaValue → LuaValue → Fields → Fields

-- How a call of a C function ends: it returns the values that it pushed, or it raises a Lua error
-- that names an argument (`luaL_argcheck`) or another one (`luaL_error`), or it touches memory outside the object it may use.
pub data Reply : Type 0 where
  values : List LuaValue → Reply
  arg_error : ℕ → Bytes → Reply
  raised : Bytes → Reply
  overrun : Reply
  aborted : Reply

-- The macros LRET_NIL, LRET_BOOLEAN, LRET_NEGATIVE and LRET_EMPTYSTR.
pub data Flag : Type 0 where
  lret_nil lret_boolean lret_negative lret_emptystr : Flag

-- The result of a system call that reports failure by -1 and `errno`.
pub data SysRet (A : Type 0) : Type 0 where
  failed : ℕ → SysRet A
  done : A → SysRet A

pub done≢failed : {A : Type 0} {a : A} {e : ℕ} → done a ≢ failed e
done≢failed h = cc

pub done-injective : {A : Type 0} {a b : A} → done a ≡ done b → a ≡ b
done-injective h = cc

abbrev pub failure_value : Flag → LuaValue
failure_value lret_nil = nil
failure_value lret_boolean = boolean false
failure_value lret_negative = integer (negsuc 0)
failure_value lret_emptystr = string []

module _ (strerror : ℕ → Bytes) where
  abbrev message : Option Bytes → ℕ → Bytes
  message none errcode = strerror errcode
  message (some msg) errcode = if errcode == 0 then msg else msg ++ (text " : " ++ strerror errcode)

  -- `report_errmsg`: the failure value of the flag, a message and the error code.
  unfoldable pub report_errmsg : Flag → ℕ → Option Bytes → List LuaValue
  report_errmsg flag errcode msg =
      failure_value flag ∷ string (message msg errcode) ∷ integer (pos errcode) ∷ []

  -- `report_error` and `report_errno` give no message of their own.
  abbrev pub report_error : Flag → ℕ → Reply
  report_error flag errcode = values (report_errmsg flag errcode none)

  -- The common end of a method whose system call tells success from failure only: `true`, or false
  -- with the error (`if (call() == -1) return report_errno(L, LRET_BOOLEAN)`).
  abbrev pub boolean_status : SysRet (Unit {0}) → Reply
  boolean_status (failed e) = report_error lret_boolean e
  boolean_status (done u) = values (boolean true ∷ [])
