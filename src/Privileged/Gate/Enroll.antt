-- ===== src/Privileged/Gate/Enroll.antt =====
-- `enroll_approver` of src/bin/shellfleet-approval-gate.rs, and `configured_agent_uid` of
-- src/privileged/peer.rs. The calls of the operating system are arguments.
use shellfleet_agent.Common.{
  ℕ, ◌+◌, ◌-◌, ◌*◌, ◌≡◌, inl, inr, refl, sym, subst, Bool, true, false, not, ◌&&◌, ◌||◌, List, [],
  ◌∷◌, Option, none, some, if◌then◌else◌, ◌==◌, ltb, is_empty, length, any, all, equal, equal_refl,
  Text, Bytes, lit, as_bytes, str_len, split, lines, is_ascii_digit, is_ascii_alphanumeric,
  contains_char, Result, ok, err, ◌>>=◌, ◌>>◌, ensure, ok_or, map_err, map_err-eq_ok, reported,
  >>=-eq-ok, ok_or-eq_ok, ensure-eq_ok, Bool-cases, arith,
}
use shellfleet_agent.Privileged.Approval.{
  Ed25519, Encodings, decode_keys, load_approvers, invalid_key_encoding, key_not_32_bytes,
}

pub data EnrollError : Type 0 where
  not_root invalid_id bad_encoding not_32_bytes not_ed25519 : EnrollError
  to_json io : Text → EnrollError

abbrev pub Keyring : Type 0
Keyring = List (Text × Text)

-- The order of `String`: that of its bytes.
unfoldable pub before : Bytes → Bytes → Bool
before [] [] = false
before [] (b ∷ bs) = true
before (a ∷ xs) [] = false
before (a ∷ xs) (b ∷ bs) = ltb a b || (a == b && before xs bs)

-- `BTreeMap::insert`: the list is in the order of its keys.
unfoldable pub insert_key : Text → Text → Keyring → Keyring
insert_key id value [] = (id, value) ∷ []
insert_key id value ((k, v) ∷ rest) =
    let later = insert_key id value rest in
    if equal k id
    then (id, value) ∷ rest
    else if before (as_bytes id) (as_bytes k)
    then (id, value) ∷ (k, v) ∷ rest
    else (k, v) ∷ later

unfoldable pub is_approver_id : Text → Bool
is_approver_id id = not (
    is_empty id
    || ltb 64 (str_len id)
    || not (all (λ b. is_ascii_alphanumeric b || contains_char b (lit "._-")) (as_bytes id)))

-- `serde_json::to_vec_pretty`, and the errors of writing, of the mode and of the renaming.
pub record Writing : Type 0 where
  pub to_vec_pretty : Keyring → Result Text Text
  pub write_fault : Option Text
  pub mode_fault : Option Text
  pub rename_fault : Option Text

module _ (ed : Ed25519) (enc : Encodings) (disk : Writing) where
  -- The keyring as it was: what cannot be read or parsed counts as empty.
  unfoldable pub old_keyring : Result Text Text → Keyring
  old_keyring (err e) = []
  old_keyring (ok raw) = elim (enc.parse_map raw) [ none ↦ [] | some values ↦ values ]

  -- The new text of the file.
  unfoldable pub enroll_approver : ℕ → Result Text Text → Text → Text → Result EnrollError Text
  enroll_approver euid file id encoded = do
    ensure (euid == 0) not_root
    ensure (is_approver_id id) invalid_id
    decoded ← ok_or (enc.decode64 encoded) bad_encoding
    ensure (length decoded == 32) not_32_bytes
    ensure (ed.is_key decoded) not_ed25519
    text ← map_err to_json (disk.to_vec_pretty (insert_key id encoded (old_keyring file)))
    reported io disk.write_fault
    reported io disk.mode_fault
    reported io disk.rename_fault
    ok text

-- `str::parse::<u32>`
unfoldable pub digits_onto : ℕ → Text → Option ℕ
digits_onto n [] = some n
digits_onto n (c ∷ s) =
    let rest = digits_onto (n * 10 + (c - b'0')) s in if is_ascii_digit c then rest else none

unfoldable pub unsigned_digits : Text → Option ℕ
unsigned_digits [] = none
unsigned_digits (c ∷ s) =
    if c == b'+' && not (is_empty s) then digits_onto 0 s else digits_onto 0 (c ∷ s)

unfoldable pub parse_u32 : Text → Option ℕ
parse_u32 s = elim (unsigned_digits s) [
  | none ↦ none
  | some n ↦ if ltb n 4294967296 then some n else none
]

-- `fields.next()? == "shellfleet"`, and then the second of the fields that follow.
unfoldable pub passwd_uid : List Text → Option ℕ
passwd_uid (name ∷ password ∷ uid ∷ rest) =
    if equal name (lit "shellfleet") then parse_u32 uid else none
passwd_uid _ = none

-- `Iterator::find_map`
unfoldable pub find_uid : List Text → Option ℕ
find_uid [] = none
find_uid (line ∷ rest) = elim (passwd_uid (split b':' line)) [
  | some uid ↦ some uid
  | none ↦ find_uid rest
]

pub data PeerError : Type 0 where
  invalid_agent_uid no_service_user : PeerError
  read_passwd : Text → PeerError

-- The environment variable, and the text of /etc/passwd.
unfoldable pub configured_agent_uid : Option Text → Result Text Text → Result PeerError ℕ
configured_agent_uid (some raw) passwd = ok_or (parse_u32 raw) invalid_agent_uid
configured_agent_uid none passwd = do
  text ← map_err read_passwd passwd
  ok_or (find_uid (lines text)) no_service_user

-- Reading what was written.
abbrev pub ReadsBack : Encodings → Writing → Type 0
ReadsBack enc disk =
    (values : Keyring) (text : Text)
    → disk.to_vec_pretty values ≡ ok text
    → enc.parse_map text ≡ some values

-- A keyring that decodes, and that has a key.
abbrev HasKey : Encodings → Keyring → Bytes → Type 0
HasKey enc values key =
    (keys : List (Text × Bytes)) × (decode_keys enc values ≡ ok keys)
    × (any (λ entry. equal entry.1 key) keys ≡ true)

module _ (id value k v : Text) (rest : Keyring) where
  insert_key-same : equal k id ≡ true → insert_key id value ((k, v) ∷ rest) ≡ (id, value) ∷ rest
  unfolding insert_key
  insert_key-same e = ground (arith, e)

  insert_key-front :
      equal k id ≡ false
      → before (as_bytes id) (as_bytes k) ≡ true
      → insert_key id value ((k, v) ∷ rest) ≡ (id, value) ∷ (k, v) ∷ rest
  unfolding insert_key
  insert_key-front e b = ground (arith, e, b)

  insert_key-later :
      equal k id ≡ false
      → before (as_bytes id) (as_bytes k) ≡ false
      → insert_key id value ((k, v) ∷ rest) ≡ (k, v) ∷ insert_key id value rest
  unfolding insert_key
  insert_key-later e b = ground (arith, e, b)

module _ (enc : Encodings) where
  decode_keys-cons :
      (id value : Text) (key : Bytes) (rest : Keyring) (keys : List (Text × Bytes))
      → enc.decode64 value ≡ some key
      → (length key == 32) ≡ true
      → decode_keys enc rest ≡ ok keys
      → decode_keys enc ((id, value) ∷ rest) ≡ ok ((id, key) ∷ keys)
  unfolding decode_keys
  decode_keys-cons id value key rest keys d n h = ground (arith, d, n, h)

  decode_keys-uncons :
      (id value : Text) (rest : Keyring) (keys : List (Text × Bytes))
      → decode_keys enc ((id, value) ∷ rest) ≡ ok keys
      → (key : Bytes) × (others : List (Text × Bytes)) × (enc.decode64 value ≡ some key)
        × ((length key == 32) ≡ true)
        × (decode_keys enc rest ≡ ok others)
  unfolding decode_keys
  decode_keys-uncons id value rest keys h =
      let (key, d, h₁) = >>=-eq-ok (ok_or (enc.decode64 value) invalid_key_encoding) _ h in
      let (_, n, h₂) = >>=-eq-ok (ensure (length key == 32) key_not_32_bytes) _ h₁ in
      let (others, r, _) = >>=-eq-ok (decode_keys enc rest) _ h₂ in
      (
        key,
        others,
        ok_or-eq_ok (enc.decode64 value) invalid_key_encoding d,
        ensure-eq_ok (length key == 32) key_not_32_bytes n,
        r,
      )

  decode_keys-nil : decode_keys enc [] ≡ ok []
  unfolding decode_keys
  decode_keys-nil = refl

  load_approvers-ok :
      (raw : Text) (values : Keyring) (keys : List (Text × Bytes))
      → enc.parse_map raw ≡ some values
      → is_empty values ≡ false
      → decode_keys enc values ≡ ok keys
      → load_approvers enc (ok raw) ≡ ok keys
  unfolding load_approvers
  load_approvers-ok raw values keys r e h = ground (arith, r, e, h)

  HasKey-cons :
      (id value : Text) (key other : Bytes) (rest : Keyring)
      → enc.decode64 value ≡ some other
      → (length other == 32) ≡ true
      → HasKey enc rest key
      → HasKey enc ((id, value) ∷ rest) key
  HasKey-cons id value key other rest d n (keys, h, a) =
      ((id, other) ∷ keys, decode_keys-cons id value other rest keys d n h, ground (arith, a))

  HasKey-here :
      (id value : Text) (key : Bytes) (rest : Keyring) (keys : List (Text × Bytes))
      → enc.decode64 value ≡ some key
      → (length key == 32) ≡ true
      → decode_keys enc rest ≡ ok keys
      → HasKey enc ((id, value) ∷ rest) key
  HasKey-here id value key rest keys d n h = (
    (id, key) ∷ keys,
    decode_keys-cons id value key rest keys d n h,
    ground (arith, equal_refl key),
  )

  insert_key-HasKey :
      (id value : Text) (key : Bytes) (values : Keyring) (keys : List (Text × Bytes))
      → enc.decode64 value ≡ some key
      → (length key == 32) ≡ true
      → decode_keys enc values ≡ ok keys
      → HasKey enc (insert_key id value values) key
  unfolding insert_key
  insert_key-HasKey id value key [] keys d n h = HasKey-here id value key [] [] d n decode_keys-nil
  insert_key-HasKey id value key ((k, v) ∷ rest) keys d n h =
      let (other, others, dv, nv, r) = decode_keys-uncons k v rest keys h in
      elim (Bool-cases (equal k id)) [
        | inl e ↦
            subst (λ t. HasKey enc t key) (sym (insert_key-same id value k v rest e))
              (HasKey-here id value key rest others d n r)
        | inr e ↦ elim (Bool-cases (before (as_bytes id) (as_bytes k))) [
          | inl b ↦
              subst (λ t. HasKey enc t key) (sym (insert_key-front id value k v rest e b))
                (HasKey-here id value key ((k, v) ∷ rest) keys d n h)
          | inr b ↦
              subst (λ t. HasKey enc t key) (sym (insert_key-later id value k v rest e b))
                (HasKey-cons k v key other (insert_key id value rest) dv nv
                  (insert_key-HasKey id value key rest others d n r))
        ]
      ]

insert_key-is_empty :
    (id value : Text) (values : Keyring) → is_empty (insert_key id value values) ≡ false
unfolding insert_key
insert_key-is_empty id value [] = refl
insert_key-is_empty id value ((k, v) ∷ rest) = ground arith

-- The gate accepts approvals by `key`, once the keyring reads as `file`.
abbrev pub Enrols : Encodings → Result Text Text → Bytes → Type 0
Enrols enc file key =
    (keys : List (Text × Bytes)) × (load_approvers enc file ≡ ok keys)
    × (any (λ entry. equal entry.1 key) keys ≡ true)

module _ (ed : Ed25519) (enc : Encodings) (disk : Writing) where
  -- An enrolment that succeeds, over a keyring that is absent, unreadable or decodes, leaves a file
  -- that the gate loads, and the new key is among the approvers, given that what the file is written
  -- with reads back.
  pub enroll_approver-load_approvers :
      (euid : ℕ) (file : Result Text Text) (id encoded text : Text) (key : Bytes)
      (keys : List (Text × Bytes))
      → ReadsBack enc disk
      → decode_keys enc (old_keyring ed enc disk file) ≡ ok keys
      → enc.decode64 encoded ≡ some key
      → enroll_approver ed enc disk euid file id encoded ≡ ok text
      → Enrols enc (ok text) key
  unfolding enroll_approver
  enroll_approver-load_approvers euid file id encoded text key keys back old d h =
      let values = insert_key id encoded (old_keyring ed enc disk file) in
      let (_, _, h₁) = >>=-eq-ok (ensure (euid == 0) not_root) _ h in
      let (_, _, h₂) = >>=-eq-ok (ensure (is_approver_id id) invalid_id) _ h₁ in
      let (decoded, e₃, h₃) = >>=-eq-ok (ok_or (enc.decode64 encoded) bad_encoding) _ h₂ in
      let (_, e₄, h₄) = >>=-eq-ok (ensure (length decoded == 32) not_32_bytes) _ h₃ in
      let (_, _, h₅) = >>=-eq-ok (ensure (ed.is_key decoded) not_ed25519) _ h₄ in
      let (out, e₆, h₆) = >>=-eq-ok (map_err to_json (disk.to_vec_pretty values)) _ h₅ in
      let (_, _, h₇) = >>=-eq-ok (reported io disk.write_fault) _ h₆ in
      let (_, _, h₈) = >>=-eq-ok (reported io disk.mode_fault) _ h₇ in
      let (_, _, h₉) = >>=-eq-ok (reported io disk.rename_fault) _ h₈ in
      let same : out ≡ text = cc in
      let d' = ok_or-eq_ok (enc.decode64 encoded) bad_encoding e₃ in
      let decoded_is : decoded ≡ key = cc in
      let n = ensure-eq_ok (length decoded == 32) not_32_bytes e₄ in
      let (all_keys, loads, found) =
        insert_key-HasKey enc id encoded key (old_keyring ed enc disk file) keys d
          (subst (λ k. (length k == 32) ≡ true) decoded_is n) old in
      let written = map_err-eq_ok to_json (disk.to_vec_pretty values) e₆ in
      (
        all_keys,
        load_approvers-ok enc text values all_keys
            (subst (λ t. enc.parse_map t ≡ some values) same (back values out written))
            (insert_key-is_empty id encoded (old_keyring ed enc disk file)) loads,
        found,
      )
