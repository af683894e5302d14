-- ===== src/Demux/Defs.antt =====
-- `BenchmarkRemoteAddrDemux` of src/rtc_udp_demux.rs with all its methods. A method that takes
-- `&mut self` returns the new demultiplexer. The keys are those of any session type.
use o_sfu_benchmarks.Base.{
  ℕ, Bool, true, false, Option, none, some, List, [], ◌∷◌, ◌++◌, ℕ_discrete, eqb, if◌then◌else◌,
  contains, retain_ne, is_empty,
}
use o_sfu_benchmarks.Base.Map.{Key, Map, get, insert, remove}

-- An IPv4 address as its 32-bit number, and a port.
pub record SocketAddr : Type 0 where
  pub ip : ℕ
  pub port : ℕ

unfoldable pub SocketAddr-discrete : Discrete SocketAddr
SocketAddr-discrete = hlevel ℕ_discrete

-- A `HashMap` has no order of keys that the code could see.
abbrev pub addr_key : Key SocketAddr
addr_key = record { dec = SocketAddr-discrete; before = λ a b. false }

pub record RemoteAddrDemux (Session : Type 0) : Type 0 where
  pub remote_addr_index : Map SocketAddr Session
  pub remote_addrs_by_session : Map Session (List SocketAddr)
  pub remote_candidate_addr_index : Map SocketAddr (List Session)
  pub remote_candidate_addrs_by_session : Map Session (List SocketAddr)

abbrev pub default : {Session : Type 0} → RemoteAddrDemux Session
default = record {
  remote_addr_index = [];
  remote_addrs_by_session = [];
  remote_candidate_addr_index = [];
  remote_candidate_addrs_by_session = [];
}

abbrev pub or_default : {A : Type 0} → Option (List A) → List A
or_default none = []
or_default (some l) = l

module _ {Session : Type 0} (sessions : Key Session) where
  -- `get(..).is_some_and(|current_session| current_session == session_key)`
  abbrev pub routes_to : Option Session → Session → Bool
  routes_to none s = false
  routes_to (some t) s = eqb sessions.dec t s

  abbrev pub session_key_for_remote_addr : RemoteAddrDemux Session → SocketAddr → Option Session
  session_key_for_remote_addr d a = get addr_key a d.remote_addr_index

  unfoldable pub remove_remote_addr_from_session :
      RemoteAddrDemux Session → Session → SocketAddr → RemoteAddrDemux Session
  remove_remote_addr_from_session d s a = elim (get sessions s d.remote_addrs_by_session) [
    | none ↦ d
    | some session_addrs ↦
        let kept = retain_ne SocketAddr-discrete a session_addrs in
        let retained = insert sessions s kept d.remote_addrs_by_session in
        record d {
          remote_addrs_by_session = if is_empty kept then remove sessions s retained else retained;
        }
  ]

  -- The `entry(session_key).or_default()` of `remember_remote_addr` and the push behind it.
  unfoldable pub push_remote_addr :
      RemoteAddrDemux Session → Session → SocketAddr → RemoteAddrDemux Session
  push_remote_addr d s a =
      let session_addrs = or_default (get sessions s d.remote_addrs_by_session) in
      record d {
        remote_addrs_by_session =
            insert sessions s
              (if contains SocketAddr-discrete a session_addrs
                then session_addrs
                else session_addrs ++ a ∷ [])
              d.remote_addrs_by_session;
      }

  unfoldable pub forget_previous :
      RemoteAddrDemux Session → Option Session → SocketAddr → RemoteAddrDemux Session
  forget_previous d none a = d
  forget_previous d (some previous) a = remove_remote_addr_from_session d previous a

  -- The new state, and whether the route changed.
  unfoldable pub remember_remote_addr :
      RemoteAddrDemux Session → SocketAddr → Session → RemoteAddrDemux Session × Bool
  remember_remote_addr d a s =
      let previous = get addr_key a d.remote_addr_index in
      let indexed = record d { remote_addr_index = insert addr_key a s d.remote_addr_index } in
      if routes_to previous s
      then (d, false)
      else (push_remote_addr (forget_previous indexed previous a) s a, true)

  abbrev pub session_entries : RemoteAddrDemux Session → List (Session × List SocketAddr)
  session_entries d = d.remote_addrs_by_session

  abbrev pub candidate_sessions_for_source_addr :
      RemoteAddrDemux Session → SocketAddr → Option (List Session)
  candidate_sessions_for_source_addr d a = get addr_key a d.remote_candidate_addr_index

  unfoldable pub remove_candidate_session :
      RemoteAddrDemux Session → SocketAddr → Session → RemoteAddrDemux Session
  remove_candidate_session d a s = elim (get addr_key a d.remote_candidate_addr_index) [
    | none ↦ d
    | some candidates ↦
        let kept = retain_ne sessions.dec s candidates in
        let retained = insert addr_key a kept d.remote_candidate_addr_index in
        record d {
          remote_candidate_addr_index =
              if is_empty kept then remove addr_key a retained else retained;
        }
  ]

  -- `for addr in previous_addrs { self.remove_candidate_session(addr, session_key); }`
  unfoldable pub remove_candidates :
      RemoteAddrDemux Session → Session → List SocketAddr → RemoteAddrDemux Session
  remove_candidates d s [] = d
  remove_candidates d s (a ∷ addrs) = remove_candidates (remove_candidate_session d a s) s addrs

  -- The body of the loop that stores the new addresses.
  unfoldable pub add_candidate_session :
      RemoteAddrDemux Session → Session → SocketAddr → RemoteAddrDemux Session
  add_candidate_session d s a =
      let candidates = or_default (get addr_key a d.remote_candidate_addr_index) in
      record d {
        remote_candidate_addr_index =
            insert addr_key a
              (if contains sessions.dec s candidates then candidates else candidates ++ s ∷ [])
              d.remote_candidate_addr_index;
      }

  -- The loop: the state, and the addresses stored so far.
  unfoldable pub add_candidates :
      RemoteAddrDemux Session
      → Session
      → List SocketAddr
      → List SocketAddr
      → RemoteAddrDemux Session × List SocketAddr
  add_candidates d s [] stored_addrs = (d, stored_addrs)
  add_candidates d s (a ∷ addrs) stored_addrs =
      add_candidates (add_candidate_session d s a) s addrs (stored_addrs ++ a ∷ [])

  -- `if let Some(previous_addrs) = self.remote_candidate_addrs_by_session.remove(session_key)`
  unfoldable pub drop_candidates : RemoteAddrDemux Session → Session → RemoteAddrDemux Session
  drop_candidates d s = elim (get sessions s d.remote_candidate_addrs_by_session) [
    | none ↦ d
    | some previous_addrs ↦
        remove_candidates
          (record d {
            remote_candidate_addrs_by_session =
                remove sessions s d.remote_candidate_addrs_by_session;
          })
          s previous_addrs
  ]

  unfoldable pub replace_session_remote_candidate_addrs :
      RemoteAddrDemux Session → Session → List SocketAddr → RemoteAddrDemux Session
  replace_session_remote_candidate_addrs d s addrs =
      let (added, stored_addrs) = add_candidates (drop_candidates d s) s addrs [] in
      record added {
        remote_candidate_addrs_by_session =
            insert sessions s stored_addrs added.remote_candidate_addrs_by_session;
      }
