-- ===== src/Amqp/Field/RoundTrip.antt =====
-- lamqplib.c: a Lua value that is encoded as an AMQP field and decoded again.
use lua_xlib.Base.Words.{to_int}
use lua_xlib.Amqp.Field.{
  FieldValue, encode_field, encode_table, encode_array, decode_field, decode_entries, decode_array,
  encode_bytes, in_int, kind_i32, kind_i64, take, set_entry, to_int, pos, negsuc,
}
use lua_xlib.Amqp.Field.Cleaned.{
  cleaned, cleaned_entries, cleaned_items, Absent, IsTable, AllTables, HasKeys, append_entries,
  set_entry-Absent, Absent-append, AllAbsent, AllAbsent-nil, append_entries_assoc,
  append_entries-nil,
}
use lua_xlib.Amqp.Lua.{
  LuaVal, Items, Entries, nil, other, boolean, integer, number, string, table, no_items, item,
  no_entries, entry, rawlen, eq_bytes_comm, set_entry,
}
use lua_xlib.Lua.{Bytes}
use lua_xlib.Base.Int.{ℤ}
use lua_xlib.Base.{
  ℕ, Option, none, some, ◌==◌, if◌then◌else◌, ◌≡◌, false, refl, ap, length, sym, ◌∙◌, Option-cases,
  inl, inr, [], ◌∷◌, arith, suc, take, true, Bool-cases,
}

take_all : (s : Bytes) → take (length s) s ≡ s
take_all [] = refl
take_all (b ∷ bs) = ap (◌∷◌ b) (take_all bs)

encode_bytes_all : (s : Bytes) → encode_bytes s (length s) ≡ s
encode_bytes_all [] = refl
encode_bytes_all (b ∷ bs) =
    let z : (suc (length bs) == 0) ≡ false = ground arith in rw z (ap (◌∷◌ b) (take_all bs))

-- The cast of a number that an `int` holds leaves it.
to_int-in_int : (i : ℤ) → in_int i ≡ true → to_int i ≡ i
to_int-in_int (pos n) h = ground arith
to_int-in_int (negsuc n) h = ground arith

decode-encode_integer :
    (widen : ℕ → ℕ) (i : ℤ)
    → decode_field widen (if in_int i then kind_i32 (to_int i) else kind_i64 i) ≡ some (integer i)
unfolding decode_field
decode-encode_integer widen i = elim (Bool-cases (in_int i)) [
  | inl e ↦ rw e (ap (λ z. some (integer z)) (to_int-in_int i e))
  | inr e ↦ rw e refl
]

-- The keys of the rest are new also after `k`, which none of them is, has been put in.
AllAbsent-snoc :
    (k : Bytes) (v : LuaVal) (es acc : Entries)
    → Absent k es
    → AllAbsent es acc
    → AllAbsent es (append_entries acc (entry k v no_entries))
AllAbsent-snoc k v no_entries acc a b = tt
AllAbsent-snoc k v (entry j w es) acc a b = (
  Absent-append j acc (entry k v no_entries) b.0 (eq_bytes_comm k j ∙ a.0, tt),
  AllAbsent-snoc k v es acc a.1 b.1,
)

module _ (widen : ℕ → ℕ) where
  abbrev decoded : Option FieldValue → Option LuaVal
  decoded none = none
  decoded (some x) = decode_field widen x

  mutual
    unfolding encode_field decode_field cleaned IsTable

    decode-encode : (v : LuaVal) → IsTable v → decoded (encode_field v) ≡ cleaned v
    decode-encode nil h = refl
    decode-encode other h = refl
    decode-encode (boolean b) h = refl
    decode-encode (integer i) h = decode-encode_integer widen i
    decode-encode (number f) h = refl
    decode-encode (string s) h = ap (λ x. some (string x)) (encode_bytes_all s)
    decode-encode (table no_items es) h =
        ap (λ x. some (table no_items x)) (decode-encode_table es no_entries h.1 (AllAbsent-nil es))
    decode-encode (table (item v vs) es) h =
        let z : (suc (rawlen vs) == 0) ≡ false = ground arith in
        rw z (ap (λ x. some (table x no_entries)) (decode-encode_array (item v vs) h.0))

    decode-encode_table :
        (es acc : Entries)
        → HasKeys es
        → AllAbsent es acc
        → decode_entries widen (encode_table es) acc ≡ append_entries acc (cleaned_entries es)
    decode-encode_table no_entries acc h a = sym (append_entries-nil acc)
    decode-encode_table (entry k v es) acc (t, new, h) a = elim (Option-cases (encode_field v)) [
      | inl e ↦ rw (e, sym (decode-encode v t) ∙ ap decoded e) (decode-encode_table es acc h a.1)
      | inr (x, e) ↦
          let c : cleaned v ≡ decode_field widen x = sym (decode-encode v t) ∙ ap decoded e in
          elim (Option-cases (decode_field widen x)) [
            | inl f ↦ rw (e, c ∙ f, f) (decode-encode_table es acc h a.1)
            | inr (y, f) ↦
                let grown : Entries = append_entries acc (entry k y no_entries) in
                rw (e, c ∙ f, f)
                  (ap (λ s. decode_entries widen (encode_table es) (set_entry s y acc))
                      (encode_bytes_all k)
                    ∙ ap (decode_entries widen (encode_table es)) (set_entry-Absent k y acc a.0)
                    ∙ decode-encode_table es grown h (AllAbsent-snoc k y es acc new a.1)
                    ∙ append_entries_assoc acc (entry k y no_entries) (cleaned_entries es))
          ]
    ]

    decode-encode_array :
        (vs : Items) → AllTables vs → decode_array widen (encode_array vs) ≡ cleaned_items vs
    decode-encode_array no_items h = refl
    decode-encode_array (item v vs) h = elim (Option-cases (encode_field v)) [
      | inl e ↦ rw (e, sym (decode-encode v h.0) ∙ ap decoded e) (decode-encode_array vs h.1)
      | inr (x, e) ↦
          let c : cleaned v ≡ decode_field widen x = sym (decode-encode v h.0) ∙ ap decoded e in
          elim (Option-cases (decode_field widen x)) [
            | inl f ↦ rw (e, c ∙ f, f) (decode-encode_array vs h.1)
            | inr (y, f) ↦ rw (e, c ∙ f, f) (ap (item y) (decode-encode_array vs h.1))
          ]
    ]
