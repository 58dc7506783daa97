-- ===== src/Config/Tests.antt =====
-- Runs of the guard, and its theorems at concrete paths.
use shellfleet_agent.Common.{
  inr, ◌≢◌, ◌≡◌, refl, none, Result, ok, err, Text, lit, equal, if◌then◌else◌, to_ascii_lowercase,
  lower,
}
use shellfleet_agent.Config.{
  PathError, check, normalize, resolve, push_segments, judge, denied_path, is_allowed, not_absolute,
  blocked_by_deny_list, pop,
}
use shellfleet_agent.Config.Normal.{IsNormal}
use shellfleet_agent.Config.Secrets.{IsSecret, named, denied_path-IsSecret}
use shellfleet_agent.Config.Access.{utf8, FileSystem, check_read, check_write, parent, file_name}
use shellfleet_agent.Config.Confined.{
  IsSafe, ReadsSafely, WritesSafely, etc, check-IsSafe, check_read-IsSafe, check_write-IsSafe,
  check_write-IsSecret,
}

run_check : Text → Result PathError Text
unfolding check normalize resolve push_segments judge denied_path is_allowed lower pop
run_check = check

climbs : check (lit "/etc/../etc/./Shadow") ≡ err (blocked_by_deny_list (lit "/etc/shadow"))
unfolding run_check
climbs = refl

relative : check (lit "etc/passwd") ≡ err not_absolute
unfolding run_check
relative = refl

messy : check (lit "//etc/nginx/../../Opt//x/") ≡ ok (lit "/Opt/x/")
unfolding run_check
messy = refl

keys :
    check (lit "/home/alice/projects/.ssh/config")
    ≡ err (blocked_by_deny_list (lit "any .ssh directory"))
unfolding run_check
keys = refl

check-IsSafe_example : IsNormal (lit "/Opt/x/") × IsSafe (lit "/Opt/x/")
check-IsSafe_example = check-IsSafe (lit "//etc/nginx/../../Opt//x/") messy

-- `/opt/link` is a link to `/etc`; other paths are their own.
abbrev linked : FileSystem
linked = record {
  canonicalize = λ p. if equal p (lit "/opt/link") then ok (utf8 (lit "/etc")) else ok (utf8 p);
}

hostname : check_read linked (lit "/etc/hostname") ≡ ok (utf8 (lit "/etc/hostname"))
unfolding run_check check_read
hostname = refl

check_read-IsSafe_example : ReadsSafely linked (lit "/etc/hostname") (utf8 (lit "/etc/hostname"))
check_read-IsSafe_example = check_read-IsSafe linked (lit "/etc/hostname") hostname

-- A file below an allowed location, through a link to another one.
motd : check_write linked (lit "/opt/link/motd") ≡ ok (utf8 etc, lit "motd")
unfolding run_check check_write parent file_name
motd = refl

check_write-IsSafe_example : WritesSafely linked (lit "/opt/link/motd") (utf8 etc) (lit "motd")
check_write-IsSafe_example = check_write-IsSafe linked (lit "/opt/link/motd") motd

shadow_checked : check (lit "/opt/link/shadow-") ≡ ok (lit "/opt/link/shadow-")
unfolding run_check
shadow_checked = refl

check_write-IsSecret_example :
    (check_write linked (lit "/opt/link/shadow-") ≡ ok (utf8 etc, lit "shadow-"))
    × IsSecret (to_ascii_lowercase (lit "/etc/shadow-"))
unfolding parent file_name
check_write-IsSecret_example =
    check_write-IsSecret linked (lit "/opt/link/shadow-") (lit "/opt/link/shadow-")
      (lit "/opt/link") (lit "-") shadow_checked refl refl refl

denied_path-IsSecret_example : denied_path (lit "/srv/a/.aws/b") ≢ none
denied_path-IsSecret_example =
    denied_path-IsSecret (lit "/srv/a/.aws/b")
      (named (lit "/srv/a") (lit ".aws") (lit "/b") refl (inr (lit "b", refl)) refl)
