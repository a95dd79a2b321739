-- ===== src/Repo/Keys.antt =====
-- `Repo::secret_key` and `Repo::create_key`: a key is drawn once and kept in a file.
use datum_connect.Base.{
  ◌≡◌, ◌≢◌, true, inl, inr, arith, if◌then◌else◌, ◌==◌, option_eq, nat_eq, text_eq, Bool-cases,
  length, Result, Result-cases, ok, err,
}
use datum_connect.Text.{Text, codes}
use datum_connect.Repo.{Bytes, Directory, IsLawful, Same}

-- `iroh::SecretKey`
pub record Keys : Type 1 where
  pub SecretKey : Type 0
  pub to_bytes : SecretKey → Bytes
  pub from_bytes : Bytes → SecretKey

-- A key has 32 bytes, which give it back.
pub record IsKeys (K : Keys) : Type 0 where
  pub length-to_bytes : (k : K.SecretKey) → length (K.to_bytes k) ≡ 32
  pub from_bytes-to_bytes : (k : K.SecretKey) → K.from_bytes (K.to_bytes k) ≡ k

module _ (R : Directory) (K : Keys) where
  -- `generated` is the key that `SecretKey::generate` draws.
  abbrev pub create_key : K.SecretKey → Text → R.Dir → R.Dir × Result K.SecretKey
  create_key generated name d =
      let (d', written) = R.write name (K.to_bytes generated) d in
      (d', elim written [ err e ↦ err e | ok _ ↦ ok generated ])

  -- `key.as_slice().try_into()` of an array of 32 bytes
  abbrev pub key_of_bytes : Bytes → Result K.SecretKey
  key_of_bytes b =
      if length b == 32 then ok (K.from_bytes b) else err "could not convert slice to array"

  unfoldable pub secret_key : K.SecretKey → Text → R.Dir → R.Dir × Result K.SecretKey
  secret_key generated name d =
      if R.exists name d
      then (d, elim (R.read name d) [ err e ↦ err e | ok b ↦ key_of_bytes b ])
      else (let (d', made) = R.create_dir_all d in
          elim made [ err e ↦ (d', err e) | ok _ ↦ create_key generated name d' ])

  abbrev pub listen_key : K.SecretKey → R.Dir → R.Dir × Result K.SecretKey
  listen_key generated = secret_key generated (codes "listen_key")

  abbrev pub gateway_key : K.SecretKey → R.Dir → R.Dir × Result K.SecretKey
  gateway_key generated = secret_key generated (codes "gateway_key")

  abbrev pub connect_key : K.SecretKey → R.Dir → R.Dir × Result K.SecretKey
  connect_key generated = secret_key generated (codes "connect_key")

  pub secret_key-Same :
      IsLawful R
      → (generated : K.SecretKey) (name other : Text) (d : R.Dir) → name ≢ other
      → Same R other (secret_key generated name d).0 d
  unfolding secret_key
  secret_key-Same L generated name other d n =
      let made = L.create_dir_all-Same other d in
      let kept = L.write-Same name other (K.to_bytes generated) (R.create_dir_all d).0 n in
      record {
        same_exists = ground (arith, made.same_exists, kept.same_exists);
        same_read = ground (arith, made.same_read, kept.same_read);
        same_text = ground (arith, made.same_text, kept.same_text);
      }

  -- The file is there with the key that was returned.
  pub secret_key-there :
      IsLawful R
      → IsKeys K
      → (drawn k : K.SecretKey) (name : Text) (d d' : R.Dir) → secret_key drawn name d ≡ (d', ok k)
      → (R.exists name d' ≡ true) × (b : Bytes) × (R.read name d' ≡ ok b) × (key_of_bytes b ≡ ok k)
  unfolding secret_key
  secret_key-there L I drawn k name d d' h = elim (Bool-cases (R.exists name d)) [
    | inl e ↦ elim (Result-cases (R.read name d)) [
      | inr (m, q) ↦ ground arith
      | inl (b, q) ↦ (ground arith, b, ground arith, ground arith)
    ]
    | inr e ↦
        let w = L.exists-write name (K.to_bytes drawn) (R.create_dir_all d).0 in
        let r = L.read-write name (K.to_bytes drawn) (R.create_dir_all d).0 in
        (
          ground (arith, w),
          K.to_bytes drawn,
          ground (arith, r),
          ground (arith, I.length-to_bytes drawn, I.from_bytes-to_bytes drawn),
        )
  ]

  pub secret_key-loads :
      (later k : K.SecretKey) (b : Bytes) (name : Text) (d d' : R.Dir)
      → Same R name d' d
      → R.exists name d ≡ true
      → R.read name d ≡ ok b
      → key_of_bytes b ≡ ok k
      → secret_key later name d' ≡ (d', ok k)
  unfolding secret_key
  secret_key-loads later k b name d d' s e r q = ground (arith, s.same_exists, s.same_read)

  -- Once a key has been returned, every later call returns it, whatever would be drawn then.
  pub secret_key-again :
      IsLawful R
      → IsKeys K
      → (drawn later k : K.SecretKey) (name : Text) (d d' : R.Dir)
      → secret_key drawn name d ≡ (d', ok k)
      → secret_key later name d' ≡ (d', ok k)
  unfolding secret_key
  secret_key-again L I drawn later k name d d' h = elim (Bool-cases (R.exists name d)) [
    | inl e ↦ ground arith
    | inr e ↦ ground (
      arith,
      L.exists-write name (K.to_bytes drawn) (R.create_dir_all d).0,
      L.read-write name (K.to_bytes drawn) (R.create_dir_all d).0,
      I.length-to_bytes drawn,
      I.from_bytes-to_bytes drawn,
    )
  ]
