-- ===== src/Tunnel/ProcessRouter.antt =====
-- `ProcessRoutingMatrix` of shinvpn/tunnel/process_router.py. The processes that psutil lists are an
-- argument; icons and the names of presets, which are only displayed, are left out. Times are ticks.
pub mod Policy
use shin_vpn.Prelude.{
  ℕ, ◌+◌, List, [], ◌∷◌, Bool, true, false, not, ◌&&◌, ◌||◌, if◌then◌else◌, ltb, leb, ◌==◌, ◌-◌,
  Option, none, some, bytes_eq, is_empty,
}
use shin_vpn.Prelude.Assoc.{Assoc, lookup, has, insert}
use shin_vpn.Prelude.Utf8.{Text, codes}
use shin_vpn.Tunnel.Domain.{lower, lstrip, rstrip, is_space}

abbrev pub excluded_system_procs : List Text
excluded_system_procs =
    codes "system"
    ∷ codes "system idle process"
    ∷ codes "registry"
    ∷ codes "smss.exe"
    ∷ codes "csrss.exe"
    ∷ codes "wininit.exe"
    ∷ codes "services.exe"
    ∷ codes "lsass.exe"
    ∷ codes "svchost.exe"
    ∷ codes "fontdrvhost.exe"
    ∷ codes "dwm.exe"
    ∷ codes "conhost.exe"
    ∷ codes "sihost.exe"
    ∷ codes "taskhostw.exe"
    ∷ codes "explorer.exe"
    ∷ codes "ctfmon.exe"
    ∷ codes "searchhost.exe"
    ∷ codes "startmenuexperiencehost.exe"
    ∷ codes "runtimebroker.exe"
    ∷ codes "shellexperiencehost.exe"
    ∷ codes "securityhealthservice.exe"
    ∷ codes "spoolsv.exe"
    ∷ codes "audiodg.exe"
    ∷ codes "wlanext.exe"
    ∷ codes "smartscreen.exe"
    ∷ codes "compattelrunner.exe"
    ∷ []

-- Display name and category of the known applications.
abbrev pub app_metadata_map : Assoc Text (Text × Text)
app_metadata_map =
    (codes "chrome.exe", (codes "Google Chrome", codes "Web Browser"))
    ∷ (codes "msedge.exe", (codes "Microsoft Edge", codes "Web Browser"))
    ∷ (codes "firefox.exe", (codes "Mozilla Firefox", codes "Web Browser"))
    ∷ (codes "brave.exe", (codes "Brave Browser", codes "Web Browser"))
    ∷ (codes "opera.exe", (codes "Opera Browser", codes "Web Browser"))
    ∷ (codes "discord.exe", (codes "Discord", codes "Communication"))
    ∷ (codes "telegram.exe", (codes "Telegram Desktop", codes "Communication"))
    ∷ (codes "slack.exe", (codes "Slack", codes "Communication"))
    ∷ (codes "spotify.exe", (codes "Spotify Music", codes "Media"))
    ∷ (codes "steam.exe", (codes "Steam Client", codes "Gaming"))
    ∷ (codes "epicgameslauncher.exe", (codes "Epic Games", codes "Gaming"))
    ∷ (codes "qbittorrent.exe", (codes "qBittorrent", codes "P2P / Torrent"))
    ∷ (codes "utorrent.exe", (codes "uTorrent", codes "P2P / Torrent"))
    ∷ (codes "code.exe", (codes "Visual Studio Code", codes "Development"))
    ∷ (codes "git.exe", (codes "Git SCM", codes "Development"))
    ∷ (codes "curl.exe", (codes "cURL CLI", codes "Network"))
    ∷ []

abbrev pub presets : Assoc Text (Text × List Text)
presets =
    (
      codes "GAMING_MODE",
      (
        codes "EXCLUSIVE",
        codes "chrome.exe"
            ∷ codes "msedge.exe"
            ∷ codes "firefox.exe"
            ∷ codes "discord.exe"
            ∷ codes "telegram.exe"
            ∷ [],
      ),
    )
    ∷ (codes "ULTRA_PRIVACY", (codes "INCLUSIVE", []))
    ∷ (
      codes "TORRENT_SHIELD",
      (codes "EXCLUSIVE", codes "qbittorrent.exe" ∷ codes "utorrent.exe" ∷ []),
    )
    ∷ []

pub record App : Type 0 where
  pub process_name : Text
  pub display_name : Text
  pub category : Text
  pub pid : Option ℕ
  pub is_tunneled : Bool

pub record ProcessRoutingMatrix : Type 0 where
  pub mode : Text
  pub enabled : Bool
  pub selected_apps : List Text
  pub proc_cache : Assoc Text App
  pub last_scan_time : ℕ

unfoldable pub new_matrix : ProcessRoutingMatrix
new_matrix = record {
  mode = codes "INCLUSIVE";
  enabled = false;
  selected_apps = [];
  proc_cache = [];
  last_scan_time = 0;
}

abbrev pub text_in : Text → List Text → Bool
text_in t [] = false
text_in t (x ∷ xs) = bytes_eq x t || text_in t xs

abbrev pub strip : Text → Text
strip t = rstrip is_space (lstrip is_space t)

-- {a.strip().lower() for a in app_list if a.strip()}
unfoldable pub selected : List Text → List Text
selected [] = []
selected (a ∷ rest) =
    let more = selected rest in if is_empty (strip a) then more else lower (strip a) ∷ more

-- s.upper(), of ASCII text
abbrev pub upper_char : ℕ → ℕ
upper_char c = if leb 97 c && leb c 122 then c - 32 else c

unfoldable pub upper : Text → Text
upper [] = []
upper (c ∷ t) = upper_char c ∷ upper t

unfoldable pub set_rules : Bool → Text → List Text → ProcessRoutingMatrix → ProcessRoutingMatrix
set_rules enabled mode app_list m = record m {
  enabled = enabled;
  mode = upper mode;
  selected_apps = selected app_list;
}

unfoldable pub apply_preset : Text → ProcessRoutingMatrix → ProcessRoutingMatrix × Bool
apply_preset preset_key m = elim (lookup bytes_eq (upper preset_key) presets) [
  | none ↦ (m, false)
  | some (mode, apps) ↦ (set_rules true mode apps m, true)
]

unfoldable pub should_route_process : ProcessRoutingMatrix → Text → Bool
should_route_process m process_name =
    if not m.enabled
    then true
    else if bytes_eq m.mode (codes "EXCLUSIVE")
    then text_in (lower process_name) m.selected_apps
    else not (text_in (lower process_name) m.selected_apps)

unfoldable pub app_of : ProcessRoutingMatrix → Text → Text → Text → Option ℕ → App
app_of m pname display category pid = record {
  process_name = pname;
  display_name = display;
  category = category;
  pid = pid;
  is_tunneled = should_route_process m pname;
}

-- What is shown of a running process.
unfoldable pub running_app : ProcessRoutingMatrix → Text → ℕ → Option (Text × Text) → App
running_app m pname pid none = app_of m (lower pname) pname (codes "Application") (some pid)
running_app m pname pid (some (name, cat)) = app_of m (lower pname) name cat (some pid)

-- The loop over the running processes: name and pid.
unfoldable pub scan_running :
    ProcessRoutingMatrix → List (Text × ℕ) → Assoc Text App → Assoc Text App
scan_running m [] results = results
scan_running m ((pname, pid) ∷ procs) results =
    let key = lower pname in
    scan_running m procs (
      if is_empty pname || text_in key excluded_system_procs || has bytes_eq key results
      then results
      else insert bytes_eq key (running_app m pname pid (lookup bytes_eq key app_metadata_map))
          results)

-- The known applications that are not running.
unfoldable pub add_catalog :
    ProcessRoutingMatrix → Assoc Text (Text × Text) → Assoc Text App → Assoc Text App
add_catalog m [] results = results
add_catalog m ((pname, (name, cat)) ∷ rest) results = add_catalog m rest (
    if has bytes_eq pname results
    then results
    else insert bytes_eq pname (app_of m pname name cat none) results)

-- t < u, by code points.
unfoldable pub text_less : Text → Text → Bool
text_less t [] = false
text_less [] (d ∷ u) = true
text_less (c ∷ t) (d ∷ u) = let rest = text_less t u in if c == d then rest else ltb c d

-- (x["pid"] is None, x["display_name"]), compared.
unfoldable pub app_less : App → App → Bool
app_less a b = elim a.pid [
  | none ↦ elim b.pid [ none ↦ text_less a.display_name b.display_name | some q ↦ false ]
  | some p ↦ elim b.pid [ none ↦ true | some q ↦ text_less a.display_name b.display_name ]
]

-- sorted(...), which keeps the order of equal keys.

unfoldable pub place : App → List App → List App
place a [] = a ∷ []
place a (b ∷ bs) = let rest = place a bs in if app_less b a then b ∷ rest else a ∷ b ∷ bs

unfoldable pub sorted_apps : List App → List App
sorted_apps [] = []
sorted_apps (a ∷ rest) = place a (sorted_apps rest)

abbrev pub values : Assoc Text App → List App
values [] = []
values ((k, a) ∷ d) = a ∷ values d

-- Within `scan_ttl` of the last scan, the cached list; otherwise a new one.
unfoldable pub scan_active_applications :
    ℕ → ℕ → Bool → List (Text × ℕ) → ProcessRoutingMatrix → ProcessRoutingMatrix × List App
scan_active_applications scan_ttl now force_refresh procs m =
    let results = add_catalog m app_metadata_map (scan_running m procs []) in
    if not force_refresh && (ltb now (m.last_scan_time + scan_ttl) && not (is_empty m.proc_cache))
    then (m, values m.proc_cache)
    else (record m { proc_cache = results; last_scan_time = now }, sorted_apps (values results))
