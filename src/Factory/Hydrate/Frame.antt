-- ===== src/Factory/Hydrate/Frame.antt =====
-- What a hydration leaves alone: all that it changes in the cluster are Secrets.
use backup_maker_controller.Prelude.{
  Bool, true, false, Option, none, some, Err, Fallible, gives, fails, if◌then◌else◌,
}
use backup_maker_controller.Kube.{Secret}
use backup_maker_controller.Libs.{Libs}
use backup_maker_controller.Cluster.{Cluster}
use backup_maker_controller.Gpg.{Crypto}
use backup_maker_controller.Domain.Aggregate.{ScheduledBackupAggregate}
use backup_maker_controller.Factory.Hydrate.{
  fetch_secret, created, gpg_secret_not_found, saved, updated, refetched,
  update_existing_gpg_secret, after_fetch, hydrate_gpg_secret,
}

-- A predicate on the cluster that does not depend on the Secrets that are written.
pub record IsSecretFree (C : Cluster) (P : C.State → Type 0) : Type 0 where
  pub keeps_create : (secret : Secret) (s : C.State) → P s → P (C.client_create_secret secret s).1
  pub keeps_update : (secret : Secret) (s : C.State) → P s → P (C.client_update_secret secret s).1

pub both-IsSecretFree :
    (C : Cluster) (P Q : C.State → Type 0)
    → IsSecretFree C P
    → IsSecretFree C Q
    → IsSecretFree C (λ s. P s × Q s)
both-IsSecretFree C P Q p q = record {
  keeps_create = λ secret s h. (p.keeps_create secret s h.0, q.keeps_create secret s h.1);
  keeps_update = λ secret s h. (p.keeps_update secret s h.0, q.keeps_update secret s h.1);
}

-- The predicate holds of the state that a call leaves.
unfoldable pub Kept : {A S : Type 0} → (S → Type 0) → A × S → Type 0
Kept P r = P r.1

pub kept : {A S : Type 0} (P : S → Type 0) (x : A) (s : S) → P s → Kept P (x, s)
unfolding Kept
kept P x s h = h

pub if-Kept :
    {A S : Type 0} (P : S → Type 0) (b : Bool) (x y : A × S)
    → Kept P x
    → Kept P y
    → Kept P (if b then x else y)
if-Kept P true x y h i = h
if-Kept P false x y h i = i

module _ (L : Libs) (K : Crypto) (C : Cluster) (P : C.State → Type 0) (F : IsSecretFree C P)
    (a : ScheduledBackupAggregate) where
  created-Kept : (r : (Secret × Option Err) × C.State) → P r.1 → Kept P (created L K C a r)
  unfolding created
  created-Kept ((secret, none), s) h = kept P _ s h
  created-Kept ((secret, some e), s) h = kept P _ s h

  not_found-Kept : (e : Err) (s : C.State) → P s → Kept P (gpg_secret_not_found L K C e a s)
  unfolding gpg_secret_not_found
  not_found-Kept e s h = search (if-Kept, kept, created-Kept, F.keeps_create)

  saved-Kept : (r : (Secret × Option Err) × C.State) → P r.1 → Kept P (saved L K C a r)
  unfolding saved
  saved-Kept ((secret, none), s) h = kept P _ s h
  saved-Kept ((secret, some e), s) h = kept P _ s h

  updated-Kept : (r : Secret × Fallible Bool) (s : C.State) → P s → Kept P (updated L K C a r s)
  unfolding updated
  updated-Kept (secret, gives true) s h = saved-Kept _ (F.keeps_update secret s h)
  updated-Kept (secret, gives false) s h = kept P _ s h
  updated-Kept (secret, fails e) s h = kept P _ s h

  refetched-Kept : (r : Secret × Option Err) (s : C.State) → P s → Kept P (refetched L K C a r s)
  unfolding refetched
  refetched-Kept (secret, none) s h = updated-Kept _ s h
  refetched-Kept (secret, some e) s h = kept P _ s h

  update_existing-Kept :
      (fetched : Secret) (s : C.State) → P s → Kept P (update_existing_gpg_secret L K C a fetched s)
  unfolding update_existing_gpg_secret
  update_existing-Kept fetched s h = search (if-Kept, kept, refetched-Kept)

  after_fetch-Kept :
      (r : Secret × Option Err) (s : C.State) → P s → Kept P (after_fetch L K C a r s)
  unfolding after_fetch
  after_fetch-Kept (secret, none) s h = search (if-Kept, kept, update_existing-Kept)
  after_fetch-Kept (secret, some e) s h =
      search (if-Kept, kept, not_found-Kept, update_existing-Kept)

  pub hydrate_gpg_secret-Kept : (s : C.State) → P s → Kept P (hydrate_gpg_secret L K C a s)
  unfolding hydrate_gpg_secret
  hydrate_gpg_secret-Kept s h = after_fetch-Kept (fetch_secret L K C _ _ s) s h
