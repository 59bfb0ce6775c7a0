-- ===== src/Gpg/Laws.antt =====
-- When the secret gets a new key pair, and what it holds then.
use backup_maker_controller.Prelude.{
  String, ◌≡◌, ◌≢◌, ◌↔◌, ◌⊎◌, ◌==◌, Bool, true, false, none, some, List, [], lookup, assign,
  assign_all, lookup-assign, gives, fails, Err, arith, eq_iff, if◌then◌else◌,
}
use backup_maker_controller.Kube.{Secret, OwnerReference}
use backup_maker_controller.Api.Specs.{
  GpgKeySecretSpec, get_private_key_index, get_public_key_index, get_passphrase_index,
  get_email_index,
}
use backup_maker_controller.Gpg.{
  Crypto, generate_full_gpg_identity, merged, or_made, should_update, is_missing,
  update_gpg_secret_with_recreated_gpg_key, create_new_gpg_secret,
}

-- A secret is updated exactly when the private or the public key is missing or empty, in the data with
-- the string data written over it.
pub should_update_iff :
    (secret : Secret) (spec : GpgKeySecretSpec)
    → ((should_update secret spec).1 ≡ true) ↔ (
        (is_missing (merged secret) (get_private_key_index spec) ≡ true)
        ⊎ (is_missing (merged secret) (get_public_key_index spec) ≡ true))
unfolding should_update
should_update_iff secret spec = ground arith

merged_plain :
    (secret : Secret) → or_made secret.string_data ≡ [] → merged secret ≡ or_made secret.contents
unfolding merged assign_all
merged_plain secret h = rw h

module _ (C : Crypto) (secret : Secret) (spec : GpgKeySecretSpec) (email : String) where
  -- For a secret with no string data, whatever its data and whether or not the update is forced: where
  -- a key pair of two texts that are not empty can be made, the call reports no error, and the secret
  -- that it leaves needs no further update.
  pub update_settles :
      (force : Bool) (public private : String)
      → or_made secret.string_data ≡ []
      → generate_full_gpg_identity C email ≡ gives (public, private)
      → public ≢ ""
      → private ≢ ""
      → let (secret', r) = update_gpg_secret_with_recreated_gpg_key C secret spec email force in
        ((r ≡ gives true) ⊎ (r ≡ gives false)) × ((should_update secret' spec).1 ≡ false)
  unfolding update_gpg_secret_with_recreated_gpg_key should_update assign_all
  update_settles force public private plain generated pub_text priv_text =
      let priv = get_private_key_index spec in
      let pub_key = get_public_key_index spec in
      let d = assign (get_email_index spec) email (or_made secret.contents) in
      let d' = assign (get_passphrase_index spec) "" d in
      let d'' = assign pub_key public d' in
      rw plain (
        ground (
          arith,
          plain,
          generated,
          lookup-assign priv priv private d'',
          lookup-assign pub_key priv private d'',
          lookup-assign pub_key pub_key public d',
          eq_iff private "",
          eq_iff public "",
          eq_iff priv priv,
          eq_iff pub_key pub_key,
        ))

  -- For a secret with no string data whose two keys are there and not empty, under names other than
  -- that of the address, an update that is not forced makes no key pair: it sets the address and
  -- leaves the value of every other name.
  pub update_keeps_keys :
      or_made secret.string_data ≡ []
      → is_missing (or_made secret.contents) (get_private_key_index spec) ≡ false
      → is_missing (or_made secret.contents) (get_public_key_index spec) ≡ false
      → get_private_key_index spec ≢ get_email_index spec
      → get_public_key_index spec ≢ get_email_index spec
      → (k : String)
      → let (secret', r) = update_gpg_secret_with_recreated_gpg_key C secret spec email false in
        (r ≡ gives false)
        × (lookup k (or_made secret'.contents) ≡ (
            if get_email_index spec == k then some email else lookup k (or_made secret.contents)))
  unfolding update_gpg_secret_with_recreated_gpg_key should_update assign_all
  update_keeps_keys plain private public p_email q_email k =
      let priv = get_private_key_index spec in
      let pub_key = get_public_key_index spec in
      let d = or_made secret.contents in
      let email_key = get_email_index spec in
      rw plain (
        ground (
          arith,
          plain,
          lookup-assign priv email_key email d,
          lookup-assign pub_key email_key email d,
          lookup-assign k email_key email d,
          eq_iff email_key priv,
          eq_iff email_key pub_key,
        ))

module _ (C : Crypto) (name namespace email : String) (owners : List OwnerReference)
    (spec : GpgKeySecretSpec) where
  -- Where a key pair of two texts that are not empty can be made, a new secret comes without an error,
  -- holds the private key under the private index, and needs no update.
  pub create_complete :
      (public private : String)
      → generate_full_gpg_identity C email ≡ gives (public, private)
      → public ≢ ""
      → private ≢ ""
      → let (secret, e) = create_new_gpg_secret C name namespace email owners spec in
        (e ≡ none)
        × (lookup (get_private_key_index spec) (or_made secret.contents) ≡ some private)
        × ((should_update secret spec).1 ≡ false)
  unfolding create_new_gpg_secret update_gpg_secret_with_recreated_gpg_key should_update assign_all
  create_complete public private generated pub_text priv_text =
      let priv = get_private_key_index spec in
      let pub_key = get_public_key_index spec in
      let d = assign (get_email_index spec) email [] in
      let d' = assign (get_passphrase_index spec) "" d in
      let d'' = assign pub_key public d' in
      ground (
        arith,
        generated,
        lookup-assign priv priv private d'',
        lookup-assign pub_key priv private d'',
        lookup-assign pub_key pub_key public d',
        eq_iff private "",
        eq_iff public "",
        eq_iff priv priv,
        eq_iff pub_key pub_key,
      )

  -- Where no key pair can be made, the new secret comes beside an error, holds no private key (under an
  -- index other than that of the address), and still needs an update.
  pub create_fails :
      (x : Err)
      → generate_full_gpg_identity C email ≡ fails x
      → get_private_key_index spec ≢ get_email_index spec
      → let (secret, e) = create_new_gpg_secret C name namespace email owners spec in
        (e ≢ none)
        × (lookup (get_private_key_index spec) (or_made secret.contents) ≡ none)
        × ((should_update secret spec).1 ≡ true)
  unfolding create_new_gpg_secret update_gpg_secret_with_recreated_gpg_key should_update assign_all
      lookup
  create_fails x failed other = ground (
    arith,
    failed,
    lookup-assign (get_private_key_index spec) (get_email_index spec) email [],
    eq_iff (get_email_index spec) (get_private_key_index spec),
  )
