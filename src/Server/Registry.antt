-- ===== src/Server/Registry.antt =====
-- src/rh-server.c: the list of virtual servers as configurations are registered and unregistered, and
-- `get_vservers_config` of src/rh-config.c. What `get_config` reads from a file is an argument, `none`
-- where the file cannot be opened or read. Freed configurations are dropped.
pub mod Numbers
use rahunas.Prelude.{
  ℕ, Bool, true, List, [], ◌∷◌, ◌++◌, Option, none, some, ◌==◌, leb, if◌then◌else◌, length,
}
use rahunas.Server.Run.{Run, returned, faults, ◌>>=◌}
use rahunas.Server.{Server, VServerConfig, clients, vs_init, vs_reload, vs_reset}
use rahunas.Session.{minus_one}
use rahunas.Text.{Bytes, codes, strcmp_eq, strncmp_eq}

abbrev pub id_of : Server → ℕ
id_of v = v.vserver_config.vserver_id

abbrev pub name_of : Server → Bytes
name_of v = v.vserver_config.vserver_name

abbrev pub with_flag : ℕ → VServerConfig → VServerConfig
with_flag flag c = record c { init_flag = flag }

unfoldable pub vserver_exists : List Server → ℕ → Bytes → Option Server
vserver_exists [] id name = none
vserver_exists (v ∷ vs) id name =
    if id_of v == id
    then some v
    else if strcmp_eq (name_of v) name
    then some v
    else vserver_exists vs id name

-- `strncmp(...) == 0` of two texts that may be null.
unfoldable pub strncmp_read : Option Bytes → Option Bytes → ℕ → Run Bool
strncmp_read (some s) (some t) n = returned (strncmp_eq s t n)
strncmp_read _ _ n = faults

-- The server that the configuration is for keeps it until the reload. The clients are compared where
-- the names agree.
unfoldable pub offer : VServerConfig → Server → Run Server
unfolding strncmp_read
offer config v =
    let flagged : ℕ → Server = λ flag. record v {
      vserver_config = with_flag flag v.vserver_config;
      dummy_config = some config;
    } in
    if strncmp_eq config.vserver_name (name_of v) 32
    then (strncmp_read (config.settings clients) (v.vserver_config.settings clients) 18 >>= λ same.
        returned (flagged (if same then vs_reload else vs_reset)))
    else returned (flagged vs_reset)

-- A write through the pointer that `vserver_exists` returns.
unfoldable pub modify_existing : ℕ → Bytes → (Server → Run Server) → List Server → Run (List Server)
modify_existing id name f [] = returned []
modify_existing id name f (v ∷ vs) =
    if id_of v == id
    then (f v >>= λ w. returned (w ∷ vs))
    else if strcmp_eq (name_of v) name
    then (f v >>= λ w. returned (w ∷ vs))
    else (modify_existing id name f vs >>= λ ws. returned (v ∷ ws))

abbrev pub new_vserver : VServerConfig → Server
new_vserver config = record {
  vserver_config = with_flag vs_init config;
  dummy_config = none;
  v_map = none;
  v_set = none;
}

unfoldable pub register_vserver : Option VServerConfig → List Server → Run (List Server × ℕ)
unfolding offer vserver_exists modify_existing
register_vserver none vs = returned (vs, minus_one)
register_vserver (some config) vs = elim (vserver_exists vs config.vserver_id config.vserver_name) [
  | none ↦ returned (vs ++ (new_vserver config ∷ []), 0)
  | some old ↦ modify_existing config.vserver_id config.vserver_name (offer config) vs >>= λ ws.
      returned (ws, 1)
]

unfoldable pub unregister_vserver : ℕ → List Server → List Server
unregister_vserver id [] = []
unregister_vserver id (v ∷ vs) =
    let rest = unregister_vserver id vs in if id_of v == id then vs else v ∷ rest

-- Each node is deleted once the next one is known.
unfoldable pub unregister_vserver_all : List Server → List Server
unregister_vserver_all [] = []
unregister_vserver_all (v ∷ vs) = unregister_vserver_all vs

-- `strstr(s, needle) != NULL`.
unfoldable pub contains : Bytes → Bytes → Bool
contains needle [] = strncmp_eq [] needle (length needle)
contains needle (c ∷ s) =
    let rest = contains needle s in if strncmp_eq (c ∷ s) needle (length needle) then true else rest

-- The path of a file in a directory, in a buffer of 200 bytes.
unfoldable pub conf_file : Bytes → Bytes → Run Bytes
conf_file conf_dir name =
    let path = conf_dir ++ (codes "/" ++ name) in
    if leb 200 (length path) then faults else returned path

-- The entries of the directory are those that `readdir` returns; `none` where it cannot be opened.
unfoldable pub load_files :
    (Bytes → Option VServerConfig) → Bytes → List Bytes → List Server → Run (List Server)
unfolding contains conf_file register_vserver
load_files read conf_dir [] vs = returned vs
load_files read conf_dir (name ∷ names) vs =
    if contains (codes ".conf") name
    then (do
      path ← conf_file conf_dir name
      ws ← register_vserver (read path) vs
      load_files read conf_dir names ws.0)
    else load_files read conf_dir names vs

unfoldable pub get_vservers_config :
    (Bytes → Option VServerConfig) → Bytes → Option (List Bytes) → List Server → Run (List Server)
unfolding load_files
get_vservers_config read conf_dir none vs = returned vs
get_vservers_config read conf_dir (some names) vs = load_files read conf_dir names vs
