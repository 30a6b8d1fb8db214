-- ===== src/Misc.antt =====
-- src/csync_misc.c, the part on error numbers.
use ocsync.Base.{ℕ, Bool}
use ocsync.Types.{
  StatusCode, ok, unsuccessful, lookup_error, server_auth_error, proxy_auth_error, connect_error,
  timeout, quota_exceeded, service_unavailable, file_size_error, http_error, timeskew,
  permission_denied, not_found, file_exists, param_error, out_of_space,
}

-- The error numbers that the program tells apart: its own ones of csync.h and those of errno.h by
-- name, since their numbers depend on the platform. `other` is any other number.
pub data Errno : Type 0 where
  no_error errno_general_error errno_lookup_error errno_user_unknown_on_server : Errno
  errno_proxy_auth errno_connect errno_timeout errno_quota_exceeded : Errno
  errno_service_unavailable efbig errno_precondition errno_retry errno_redirect : Errno
  errno_wrong_content errno_timedelta eperm eacces enoent eagain eexist einval enospc : Errno
  enomem enotempty edquot : Errno
  other : ℕ → Errno

unfoldable pub csync_errno_to_status : Errno → (default_status : StatusCode) → StatusCode
csync_errno_to_status no_error d = ok
csync_errno_to_status errno_general_error d = unsuccessful
csync_errno_to_status errno_lookup_error d = lookup_error
csync_errno_to_status errno_user_unknown_on_server d = server_auth_error
csync_errno_to_status errno_proxy_auth d = proxy_auth_error
csync_errno_to_status errno_connect d = connect_error
csync_errno_to_status errno_timeout d = timeout
csync_errno_to_status errno_quota_exceeded d = quota_exceeded
csync_errno_to_status errno_service_unavailable d = service_unavailable
csync_errno_to_status efbig d = file_size_error
csync_errno_to_status errno_precondition d = http_error
csync_errno_to_status errno_retry d = http_error
csync_errno_to_status errno_redirect d = http_error
csync_errno_to_status errno_wrong_content d = http_error
csync_errno_to_status errno_timedelta d = timeskew
csync_errno_to_status eperm d = permission_denied
csync_errno_to_status eacces d = permission_denied
csync_errno_to_status enoent d = not_found
csync_errno_to_status eagain d = timeout
csync_errno_to_status eexist d = file_exists
csync_errno_to_status einval d = param_error
csync_errno_to_status enospc d = out_of_space
csync_errno_to_status enomem d = d
csync_errno_to_status enotempty d = d
csync_errno_to_status edquot d = d
csync_errno_to_status (other n) d = d

abbrev pub is_eacces : Errno → Bool
is_eacces eacces = Bool.true
is_eacces _ = Bool.false

abbrev pub is_enomem : Errno → Bool
is_enomem enomem = Bool.true
is_enomem _ = Bool.false

abbrev pub is_enotempty : Errno → Bool
is_enotempty enotempty = Bool.true
is_enotempty _ = Bool.false
