-- ===== src/Api/Specs.antt =====
-- The `.spec` sections of scheduledbackup_types.go and requesteddbackupaction_types.go.
use backup_maker_controller.Prelude.{String, ◌==◌, if◌then◌else◌, Bool, false, List, []}

pub record TemplateSpec : Type 0 where
  pub name : String
  pub kind : String

pub record GpgKeySecretSpec : Type 0 where
  pub secret_name : String
  pub public_key : String
  pub private_key : String
  pub passphrase_key : String
  pub email : String
  pub create_if_not_exists : Bool

unfoldable pub get_private_key_index : GpgKeySecretSpec → String
get_private_key_index spec = if spec.private_key == "" then "key" else spec.private_key

unfoldable pub get_public_key_index : GpgKeySecretSpec → String
get_public_key_index spec = if spec.public_key == "" then "key.pub" else spec.public_key

unfoldable pub get_passphrase_index : GpgKeySecretSpec → String
get_passphrase_index spec = if spec.passphrase_key == "" then "passphrase" else spec.passphrase_key

abbrev pub get_email_index : GpgKeySecretSpec → String
get_email_index spec = "e-mail.txt"

pub record TokenSecretSpec : Type 0 where
  pub secret_name : String
  pub token_key : String

pub record VarsSecretSpec : Type 0 where
  pub secret_name : String
  pub import_only_keys : List String

pub record CronJobSpec : Type 0 where
  pub enabled : Bool
  pub schedule_every : String

pub record ScheduledBackupSpec : Type 0 where
  pub collection_id : String
  pub template_ref : TemplateSpec
  pub gpg_key_secret_ref : GpgKeySecretSpec
  pub token_secret_ref : TokenSecretSpec
  pub vars_secret_ref : VarsSecretSpec
  pub vars : String
  pub cron_job : CronJobSpec
  pub operation : String

abbrev pub empty_spec : ScheduledBackupSpec
empty_spec = record {
  collection_id = "";
  template_ref = record { name = ""; kind = "" };
  gpg_key_secret_ref = record {
    secret_name = "";
    public_key = "";
    private_key = "";
    passphrase_key = "";
    email = "";
    create_if_not_exists = false;
  };
  token_secret_ref = record { secret_name = ""; token_key = "" };
  vars_secret_ref = record { secret_name = ""; import_only_keys = [] };
  vars = "";
  cron_job = record { enabled = false; schedule_every = "" };
  operation = "";
}

pub record BackupRefSpec : Type 0 where
  pub name : String

pub record RequestedBackupActionSpec : Type 0 where
  pub action : String
  pub target_version : String
  pub scheduled_backup_ref : BackupRefSpec
  pub kind_type : String
