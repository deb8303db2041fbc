-- ===== src/Scope/Action.antt =====
-- The action names of internal/usecase/scope_guard.go.
use platform_mihomo_service.Base.{String}

abbrev pub status_read : String
status_read = "mihomo.status.read"

abbrev pub profile_read : String
profile_read = "mihomo.profile.read"

abbrev pub profile_write : String
profile_write = "mihomo.profile.write"

abbrev pub auth_key_issue : String
auth_key_issue = "mihomo.authkey.issue"

abbrev pub credential_bind : String
credential_bind = "mihomo.credential.bind"

abbrev pub device_update : String
device_update = "mihomo.device.update"

abbrev pub credential_read : String
credential_read = "mihomo.credential.read_meta"

abbrev pub credential_update : String
credential_update = "mihomo.credential.update"

abbrev pub credential_refresh : String
credential_refresh = "mihomo.credential.refresh"

abbrev pub credential_delete : String
credential_delete = "mihomo.credential.delete"
