-- ===== src/Config/Store.antt =====
-- server/config_windows.go: what is written is read back.
use remote_mouse.Common.{ℕ, ◌^◌, ◌<◌, true, Option, ◌≡◌, arith}
use remote_mouse.Common.Int.{pos}
use remote_mouse.Config.{ServerConfig, Values, read_config, WriteEnv, write_config, int_of}

-- A write that returns no error leaves a key from which the same config is read, if the port is not
-- negative and below 2^32; whatever the key held before.
pub read-write_config :
    (e : WriteEnv) (cfg : ServerConfig) (root : Option Values) (port : ℕ)
    → cfg.port ≡ pos port
    → port < 2 ^ 32
    → (write_config e cfg root).1 ≡ true
    → read_config (write_config e cfg root).0 ≡ (cfg, true)
unfolding read_config write_config int_of
read-write_config e cfg root port p small done = ground arith
