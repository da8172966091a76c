-- ===== src/Security/Sandbox.antt =====
-- security/sandbox.go and security/mem_sandbox_check.go: what a sandbox's policies allow. A check
-- answers the code of its error.
pub mod Elements
mod Tests
use brain.Prelude.Text.Paths.{slash, has_prefix, has_suffix, clean}
use brain.Prelude.Text.{Bytes, bytes_eq}
use brain.Prelude.{
  String, Bool, false, ◌&&◌, ◌||◌, not, Option, none, some, List, [], ◌∷◌, ◌++◌, if◌then◌else◌,
  nat_eq, string_eq, ◌==◌, is_nil,
}
use brain.Errors.Codes
use brain.Prelude.Int.{ℤ, pos, ltb_ℤ, leb_ℤ, int_eq}

pub record FsPolicy : Type 0 where
  pub read_allowed : List Bytes
  pub write_allowed : List Bytes
  pub denied : List Bytes

pub record NetPolicy : Type 0 where
  pub allowed_hosts : List Bytes
  pub allowed_ports : List ℤ
  pub denied_hosts : List Bytes

pub record ProcPolicy : Type 0 where
  pub max_procs : ℤ
  pub allowed_exe : List Bytes

pub record SysPolicy : Type 0 where
  pub max_cpu_time : ℤ
  pub max_memory_mb : ℤ

-- One round of `matchesAny`.
unfoldable pub entry_matches : Bytes → Bytes → Bool
entry_matches p s =
    not (p == [])
    && (p == s
        || (has_suffix p (slash ∷ []) && has_prefix s p)
        || (not (has_suffix p (slash ∷ [])) && has_prefix s (p ++ slash ∷ [])))

unfoldable pub matches_any : List Bytes → Bytes → Bool
unfolding entry_matches has_suffix has_prefix
matches_any [] s = false
matches_any (p ∷ list) s = entry_matches p s || matches_any list s

-- A denial, `denyf`.
abbrev pub denial : Option String
denial = some Codes.tool_sandbox_denied

unfoldable pub check_read : FsPolicy → Bytes → Option String
unfolding matches_any clean
check_read pol path =
    let p = clean path in
    if matches_any pol.denied p
    then denial
    else if not (matches_any pol.read_allowed p)
    then denial
    else none

unfoldable pub check_write : FsPolicy → Bytes → Option String
unfolding matches_any clean
check_write pol path =
    let p = clean path in
    if matches_any pol.denied p
    then denial
    else if not (matches_any pol.write_allowed p)
    then denial
    else none

unfoldable pub has_port : List ℤ → ℤ → Bool
has_port [] port = false
has_port (p ∷ ports) port = p == port || has_port ports port

unfoldable pub check_dial : NetPolicy → Bytes → ℤ → Option String
unfolding matches_any has_port
check_dial pol host port =
    if matches_any pol.denied_hosts host
    then denial
    else if not (is_nil pol.allowed_hosts) && not (matches_any pol.allowed_hosts host)
    then denial
    else if not (is_nil pol.allowed_ports) && not (has_port pol.allowed_ports port)
    then denial
    else none

unfoldable pub has_exe : List Bytes → Bytes → Bool
has_exe [] name = false
has_exe (allowed ∷ list) name = allowed == name || has_exe list name

unfoldable pub check_exec : ProcPolicy → Bytes → Option String
unfolding has_exe
check_exec pol name =
    if name == []
    then some Codes.tool_input_invalid
    else if is_nil pol.allowed_exe
    then denial
    else if has_exe pol.allowed_exe name
    then none
    else denial

unfoldable pub check_proc_count : ProcPolicy → ℤ → Option String
check_proc_count pol running =
    if ltb_ℤ (pos 0) pol.max_procs && leb_ℤ pol.max_procs running then denial else none

unfoldable pub check_memory : SysPolicy → ℤ → Option String
check_memory pol used =
    if ltb_ℤ (pos 0) pol.max_memory_mb && ltb_ℤ pol.max_memory_mb used then denial else none

unfoldable pub check_cpu : SysPolicy → ℤ → Option String
check_cpu pol used =
    if ltb_ℤ (pos 0) pol.max_cpu_time && ltb_ℤ pol.max_cpu_time used then denial else none
