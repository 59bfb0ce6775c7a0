-- ===== src/Gpg.antt =====
-- pkg/gpg: the secret that holds the key pair of a backup.
pub mod Laws
use backup_maker_controller.Prelude.{
  String, ◌==◌, ◌&&◌, ◌||◌, Bool, true, false, not, Option, none, some, List, [], ◌∷◌, Dict, lookup,
  assign, assign_all, Err, Fallible, gives, fails, wrap_error, if◌then◌else◌,
}
use backup_maker_controller.Kube.{Secret, OwnerReference, ObjectMeta}
use backup_maker_controller.Api.Specs.{
  GpgKeySecretSpec, get_private_key_index, get_public_key_index, get_passphrase_index,
  get_email_index,
}

-- The calls of gopenpgp that keygen.go makes, with what they return.
pub record Crypto : Type 1 where
  pub Key : Type 0
  -- `crypto.GenerateKey(name, email, keyType, bits)`, for the pair that the call draws.
  pub generate_key : String → String → Fallible Key
  pub armor : Key → Fallible String
  pub get_armored_public_key : Key → Fallible String

-- The public and the private key.
abbrev pub Identity : Type 0
Identity = String × String

module _ (C : Crypto) where
  armored_public_key : C.Key → String → Fallible Identity
  armored_public_key key private =
      elim (wrap_error (C.get_armored_public_key key) "cannot armor public key") [
        | gives public ↦ gives (public, private)
        | fails e ↦ fails e
      ]

  armored_keys : C.Key → Fallible Identity
  unfolding armored_public_key
  armored_keys key = elim (wrap_error (C.armor key) "cannot armor private key") [
    | gives private ↦ armored_public_key key private
    | fails e ↦ fails e
  ]

  unfoldable pub generate_full_gpg_identity : String → Fallible Identity
  unfolding armored_keys
  generate_full_gpg_identity email =
      elim (wrap_error (C.generate_key email email) "cannot generate key pairs") [
        | gives key ↦ armored_keys key
        | fails e ↦ fails e
      ]

-- `val, exists := d[index]; !exists || len(val) == 0`
abbrev pub is_missing : Dict String → String → Bool
is_missing d index = elim (lookup index d) [ none ↦ true | some val ↦ val == "" ]

scan_indexes : List String → Dict String → Bool
scan_indexes [] d = false
scan_indexes (index ∷ indexes) d =
    let rest = scan_indexes indexes d in if is_missing d index then true else rest

unfoldable pub or_made : Option (Dict String) → Dict String
or_made none = []
or_made (some m) = m

-- `d` is the map of the secret itself where there is one, so the loop over `.stringData` writes to
-- the secret; a map that is made here is lost.
unfoldable pub merged : Secret → Dict String
unfolding or_made
merged secret = assign_all (or_made secret.string_data) (or_made secret.contents)

written_back : Option (Dict String) → Dict String → Option (Dict String)
written_back none d = none
written_back (some m) d = some d

unfoldable pub should_update : Secret → GpgKeySecretSpec → Secret × Bool
unfolding merged written_back scan_indexes
should_update secret spec =
    let d = merged secret in
    (
      record secret { contents = written_back secret.contents d },
      scan_indexes (get_private_key_index spec ∷ get_public_key_index spec ∷ []) d,
    )

module _ (C : Crypto) where
  -- `secret.Data[…] = …` for the passphrase, the public and the private key.
  put_identity : Dict String → GpgKeySecretSpec → Identity → Dict String
  put_identity d spec (public, private) =
      assign (get_private_key_index spec) private
        (assign (get_public_key_index spec) public (assign (get_passphrase_index spec) "" d))

  -- The secret with the new identity, or as it is beside the error.
  recreate : Secret → GpgKeySecretSpec → Fallible Identity → Secret × Fallible Bool
  unfolding put_identity or_made
  recreate secret spec (gives identity) = (
    record secret { contents = some (put_identity (or_made secret.contents) spec identity) },
    gives true,
  )
  recreate secret spec (fails e) = (secret, fails (Err.wrap e "cannot generate a new identity"))

  unfoldable pub update_gpg_secret_with_recreated_gpg_key :
      Secret → GpgKeySecretSpec → String → Bool → Secret × Fallible Bool
  unfolding or_made recreate
  update_gpg_secret_with_recreated_gpg_key secret spec email force =
      let data_made = assign (get_email_index spec) email (or_made secret.contents) in
      let (checked, needed) = should_update (record secret { contents = some data_made }) spec in
      if not needed && not force
      then (checked, gives false)
      else recreate checked spec (generate_full_gpg_identity C email)

  -- The secret is returned beside the error.
  unfoldable pub create_new_gpg_secret :
      String → String → String → List OwnerReference → GpgKeySecretSpec → Secret × Option Err
  create_new_gpg_secret name namespace email owners spec =
      let secret : Secret = record {
        meta = record {
          name = name;
          generate_name = "";
          namespace = namespace;
          uid = "";
          generation = 0;
          labels = ("riotkit.org/type", "GPGSecret") ∷ [];
          annotations = ("riotkit.org/e-mail", email) ∷ [];
          owner_references = owners;
        };
        contents = none;
        string_data = some [];
      } in
      let (updated, r) = update_gpg_secret_with_recreated_gpg_key secret spec email true in
      (
        updated,
        elim r [
          | gives _ ↦ none
          | fails e ↦ some (Err.wrap e "cannot populate secret with new generated key pair")
        ],
      )
