-- ===== src/Manager/Idle.antt =====
-- internal/tunnelmgr/operations.go and manager.go: the sweep of idle tunnels, and the shutdown; and
-- what types.go reports. `none` is a panic.
use lazyfwd.Base.{
  ℕ, suc, Bool, true, false, ◌&&◌, Option, none, some, List, [], ◌∷◌, Bytes, get_elem?, set,
  if◌then◌else◌,
}
use lazyfwd.Base.Int.{ℤ, pos, ltb_ℤ, int_beq}
use lazyfwd.GoMap.{GoMap}
use lazyfwd.Config.{Config}
use lazyfwd.ClientFactory.{clear}
use lazyfwd.Tunnel.{Tunnel, is_running, idle_duration, stop, state_string}
use lazyfwd.Manager.{Manager}

-- The idle timeout of TCP: that of HTTP if none is given.
unfoldable pub tcp_idle_timeout : Config → ℤ
tcp_idle_timeout c =
    if int_beq c.tcp.idle_timeout (pos 0) then c.http.idle_timeout else c.tcp.idle_timeout

-- What is left of a map, and the store.
abbrev pub Swept : Type 0 → Type 0 → Type 0
Swept Client K = GoMap K ℕ × List (Tunnel Client)

abbrev pub keep_entry :
    {Client K : Type 0} → K → ℕ → Option (Swept Client K) → Option (Swept Client K)
keep_entry k i none = none
keep_entry k i (some (m, s)) = some ((k, i) ∷ m, s)

module _ {Client : Type 0} where
  -- `tunnel.IsRunning() && tunnel.IdleDuration() > timeout`
  unfoldable pub is_expired : ℕ → ℤ → Tunnel Client → Bool
  unfolding is_running idle_duration
  is_expired now timeout t = is_running t && ltb_ℤ timeout (idle_duration now t)

  module _ {K : Type 0} where
    -- What the sweep does with one entry; `next` sweeps the entries behind it.
    unfoldable pub sweep_entry :
        ℕ
        → ℤ
        → (List (Tunnel Client) → Option (Swept Client K))
        → K
        → ℕ
        → Option (Tunnel Client)
        → List (Tunnel Client)
        → Option (Swept Client K)
    sweep_entry now timeout next k i none store = keep_entry k i (next store)
    sweep_entry now timeout next k i (some t) store = elim (is_expired now timeout t) [
      | false ↦ keep_entry k i (next store)
      | true ↦ elim (stop t) [ none ↦ none | some t' ↦ next (set store i t') ]
    ]

    -- The loop of `cleanupIdleHTTPTunnels` and of `cleanupIdleTCPTunnels`, which deletes entries of
    -- the map over which it ranges.
    unfoldable pub sweep : ℕ → ℤ → GoMap K ℕ → List (Tunnel Client) → Option (Swept Client K)
    sweep now timeout [] store = some ([], store)
    sweep now timeout ((k, i) ∷ m) store =
        sweep_entry now timeout (sweep now timeout m) k i (get_elem? store i) store

    -- The loop of `Shutdown`: every running tunnel is stopped, and the map is emptied afterwards.
    unfoldable pub stop_all : GoMap K ℕ → List (Tunnel Client) → Option (List (Tunnel Client))
    stop_all [] store = some store
    stop_all ((k, i) ∷ m) store = elim (get_elem? store i) [
      | none ↦ stop_all m store
      | some t ↦ elim (stop t) [ none ↦ none | some t' ↦ stop_all m (set store i t') ]
    ]

  abbrev with_http :
      Manager Client → Option (GoMap Bytes ℕ × List (Tunnel Client)) → Option (Manager Client)
  with_http m none = none
  with_http m (some (tunnels, store)) = some (record m { tunnels = tunnels; store = store })

  -- `cleanupIdleHTTPTunnels`
  unfoldable pub cleanup_http : ℕ → Manager Client → Option (Manager Client)
  unfolding sweep
  cleanup_http now m = with_http m (sweep now m.config.http.idle_timeout m.tunnels m.store)

  abbrev with_tcp :
      Manager Client → Option (GoMap ℤ ℕ × List (Tunnel Client)) → Option (Manager Client)
  with_tcp m none = none
  with_tcp m (some (tunnels, store)) = some (record m { tcp_tunnels = tunnels; store = store })

  -- `cleanupIdleTCPTunnels`
  unfoldable pub cleanup_tcp : ℕ → Manager Client → Option (Manager Client)
  unfolding sweep tcp_idle_timeout
  cleanup_tcp now m = with_tcp m (sweep now (tcp_idle_timeout m.config) m.tcp_tunnels m.store)

  abbrev then_tcp : ℕ → Option (Manager Client) → Option (Manager Client)
  then_tcp now none = none
  then_tcp now (some m) = cleanup_tcp now m

  -- `cleanupIdleTunnels`
  unfoldable pub cleanup_idle : ℕ → Manager Client → Option (Manager Client)
  cleanup_idle now m = then_tcp now (cleanup_http now m)

  abbrev then_stop_tcp : Manager Client → Option (List (Tunnel Client)) → Option (Manager Client)
  then_stop_tcp m none = none
  then_stop_tcp m (some store) = elim (stop_all m.tcp_tunnels store) [
    | none ↦ none
    | some store' ↦
        some
          (record m { store = store'; tunnels = []; tcp_tunnels = []; clients = clear m.clients })
  ]

  -- `Shutdown`, behind the end of the cleanup loop
  unfoldable pub shutdown : Manager Client → Option (Manager Client)
  unfolding stop_all clear
  shutdown m = then_stop_tcp m (stop_all m.tunnels m.store)

  abbrev count_running : Option (Tunnel Client) → ℕ → ℕ
  count_running none n = n
  count_running (some t) n = if is_running t then suc n else n

  active_in : GoMap Bytes ℕ → List (Tunnel Client) → ℕ
  active_in [] store = 0
  active_in ((h, i) ∷ m) store = count_running (get_elem? store i) (active_in m store)

  -- `ActiveTunnels`
  unfoldable pub active_tunnels : Manager Client → ℕ
  unfolding active_in is_running
  active_tunnels m = active_in m.tunnels m.store

pub record TunnelInfo : Type 0 where
  pub hostname : Bytes
  pub local_port : ℕ
  pub state : Bytes
  pub idle_duration : ℤ

module _ {Client : Type 0} where
  abbrev add_info : ℕ → Bytes → Option (Tunnel Client) → List TunnelInfo → List TunnelInfo
  add_info now h none infos = infos
  add_info now h (some t) infos =
      record {
        hostname = h;
        local_port = t.local_port;
        state = state_string t.state;
        idle_duration = idle_duration now t;
      }
      ∷ infos

  list_in : ℕ → GoMap Bytes ℕ → List (Tunnel Client) → List TunnelInfo
  list_in now [] store = []
  list_in now ((h, i) ∷ m) store = add_info now h (get_elem? store i) (list_in now m store)

  -- `ListTunnels`
  unfoldable pub list_tunnels : ℕ → Manager Client → List TunnelInfo
  unfolding list_in
  list_tunnels now m = list_in now m.tunnels m.store
