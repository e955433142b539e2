-- ===== src/Names/Tests.antt =====
-- Runs of secretVolumeName in internal/controller/resources.go, and its theorem at an example.
use heliop.Base.{◌≡◌, refl}
use heliop.Names.{is_file_secret, secret_volume_name, volume_runes, runes}
use heliop.Names.DnsLabel.{IsDnsLabel, secret_volume_name-IsDnsLabel}

volume_runes_run :
    volume_runes "X_AUTHELIA_SMTP_PASSWORD_FILE" ≡ runes "x-authelia-smtp-password-file"
unfolding volume_runes
volume_runes_run = refl

-- Two variables with one volume name.
secret_volume_name_collision : secret_volume_name "A_B_FILE" ≡ secret_volume_name "A.B_FILE"
unfolding secret_volume_name
secret_volume_name_collision = refl

secret_volume_name-IsDnsLabel_example : IsDnsLabel (runes (secret_volume_name "_SMTP_FILE"))
unfolding is_file_secret
secret_volume_name-IsDnsLabel_example = secret_volume_name-IsDnsLabel "_SMTP_FILE" refl
