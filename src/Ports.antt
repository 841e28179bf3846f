-- ===== src/Ports.antt =====
-- infrastructure/qbit-port-sync/sync_qbit_port.py: the port on which qBittorrent listens is made
-- the one that the VPN forwards.
pub mod Laws
use az_lab.Text
use az_lab.Json
use az_lab.Json.{Json, null, bool, num, str, arr, obj}
use az_lab.Durability.Migrations.{number_of}
use az_lab.Prelude.{
  ℕ, String, ◌<>◌, Bool, true, false, not, ◌&&◌, ◌||◌, Option, none, some, List, [], ◌∷◌, ◌==◌, leb,
  eqb, if◌then◌else◌,
}

abbrev pub gluetun : String
gluetun = "gluetun"

abbrev pub qbit : String
qbit = "qbittorrent"

abbrev api : String
api = "http://localhost:8080/api/v2"

pub data Call : Type 0 where
  inspect : String → Call
  cat_port : Call
  preferences : Call
  set_preferences : ℕ → Call

-- The arguments of podman.
pub args : Call → List String
unfolding Text.show
args (inspect c) = "inspect" ∷ c ∷ "--format" ∷ "{{.State.Status}}" ∷ []
args cat_port = "exec" ∷ gluetun ∷ "cat" ∷ "/tmp/gluetun/forwarded_port" ∷ []
args preferences = "exec" ∷ qbit ∷ "curl" ∷ "-s" ∷ "-m" ∷ "10" ∷ (api <> "/app/preferences") ∷ []
args (set_preferences port) =
    "exec"
    ∷ qbit
    ∷ "curl"
    ∷ "-s"
    ∷ "-m"
    ∷ "10"
    ∷ "-f"
    ∷ "-X"
    ∷ "POST"
    ∷ (api <> "/app/setPreferences")
    ∷ "--data-urlencode"
    ∷ ("json={\"listen_port\":" <> (Text.show port <> "}"))
    ∷ []

-- podman's exit code and its output, without the blanks around it, after some calls: code 1 where
-- the call times out or cannot be made. json.loads, and int of a value, `none` where it raises.
pub record World : Type 0 where
  pub podman : List Call → List String → ℕ × String
  pub parse : String → Option Json
  pub to_int : Json → Option ℕ

-- A run gives an exit code, or raises where the preferences are no object.
pub data Exit : Type 0 where
  exit : ℕ → Exit
  raised : Exit

-- What int(json.loads(out).get("listen_port")) gives.
pub data Listen : Type 0 where
  port : ℕ → Listen
  unread : Listen
  no_object : Listen

pub ask : World → List Call → Call → ℕ × String
unfolding args
ask w h c = w.podman h (args c)

is_running : ℕ × String → Bool
is_running (rc, out) = eqb rc 0 && out == "running"

pub running : World → List Call → String → Bool
unfolding ask is_running
running w h c = is_running (ask w h (inspect c))

in_range : Option ℕ → Option ℕ
in_range none = none
in_range (some n) = if leb 1 n && leb n 65535 then some n else none

port_in : ℕ × String → Option ℕ
unfolding in_range number_of
port_in (rc, out) = if eqb rc 0 then in_range (number_of out) else none

pub forwarded_port : World → List Call → Option ℕ
unfolding ask port_in
forwarded_port w h = port_in (ask w h cat_port)

abbrev int_listen : Option ℕ → Listen
int_listen none = unread
int_listen (some n) = port n

listen_in : World → Option Json → Listen
unfolding Json.get
listen_in w none = unread
listen_in w (some (obj d)) = int_listen (w.to_int (Json.get "listen_port" d))
listen_in w (some null) = no_object
listen_in w (some (bool b)) = no_object
listen_in w (some (num n)) = no_object
listen_in w (some (str s)) = no_object
listen_in w (some (arr xs)) = no_object

read_listen : World → ℕ × String → Listen
unfolding listen_in
read_listen w (rc, out) = if not (eqb rc 0) || out == "" then unread else listen_in w (w.parse out)

pub listen_port : World → List Call → Listen
unfolding ask read_listen
listen_port w h = read_listen w (ask w h preferences)

abbrev exit_code : ℕ × String → ℕ
exit_code (rc, out) = rc

set_listen_port : World → List Call → ℕ → Bool
unfolding ask
set_listen_port w h p = eqb (exit_code (ask w h (set_preferences p))) 0

confirm : ℕ → Listen → Exit
confirm want (port p) = if eqb p want then exit 0 else exit 1
confirm want unread = exit 1
confirm want no_object = raised

-- The port is set, and read back.
change : World → ℕ → List Call → Exit × List Call
unfolding set_listen_port confirm listen_port
change w want h =
    let h' = set_preferences want ∷ h in
    if set_listen_port w h want
    then (confirm want (listen_port w h'), preferences ∷ h')
    else (exit 1, h')

align : World → ℕ → Listen → List Call → Exit × List Call
unfolding change
align w want (port have) h = if eqb have want then (exit 0, h) else change w want h
align w want unread h = (exit 1, h)
align w want no_object h = (raised, h)

sync_to : World → Option ℕ → List Call → Exit × List Call
unfolding align listen_port
sync_to w none h = (exit 1, h)
sync_to w (some want) h = align w want (listen_port w h) (preferences ∷ h)

-- One run of main.
unfoldable pub sync : World → List Call → Exit × List Call
unfolding running forwarded_port sync_to
sync w h =
    let h1 = inspect gluetun ∷ h in
    let h2 = inspect qbit ∷ h1 in
    if not (running w h gluetun)
    then (exit 0, h1)
    else if not (running w h1 qbit)
    then (exit 0, h2)
    else sync_to w (forwarded_port w h2) (cat_port ∷ h2)
