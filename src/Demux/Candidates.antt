-- ===== src/Demux/Candidates.antt =====
-- The candidate addresses of src/rtc_udp_demux.rs: the candidate index against the per-session
-- lists, as `replace_session_remote_candidate_addrs` changes them.
use mathlib.Core.List.{append-nil, append_assoc}
use o_sfu_benchmarks.Base.{
  Bool, false, none, some, List, [], ◌∷◌, ◌++◌, ◌≡◌, refl, sym, inl, inr, arith, eqb, if◌then◌else◌,
  contains, retain_ne, contains-push, contains-retain_ne, contains_nil, contains_of_empty,
  contains-cons, ◌&&◌, ◌||◌, Option-cases, ◌≢◌, ◌∙◌,
}
use o_sfu_benchmarks.Base.Map.{Key, get, insert, remove, get-insert, get-remove, get_nil}
use o_sfu_benchmarks.Demux.Defs.{
  SocketAddr, SocketAddr-discrete, addr_key, RemoteAddrDemux, default, or_default,
  remove_candidate_session, remove_candidates, add_candidate_session, add_candidates,
  drop_candidates, replace_session_remote_candidate_addrs, candidate_sessions_for_source_addr,
}

module _ {Session : Type 0} (sessions : Key Session) where
  -- Is the session a candidate for the address?
  abbrev pub suggests : RemoteAddrDemux Session → SocketAddr → Session → Bool
  suggests d a s =
      contains sessions.dec s (or_default (candidate_sessions_for_source_addr sessions d a))

  abbrev pub candidate_addrs_of : RemoteAddrDemux Session → Session → List SocketAddr
  candidate_addrs_of d s = or_default (get sessions s d.remote_candidate_addrs_by_session)

  -- The candidate index and the lists agree, and no address has an empty candidate list.
  pub record IsCandidateConsistent (d : RemoteAddrDemux Session) : Type 0 where
    pub agrees :
        (a : SocketAddr) (s : Session)
        → suggests d a s ≡ contains SocketAddr-discrete a (candidate_addrs_of d s)
    pub no_empty : (a : SocketAddr) → get addr_key a d.remote_candidate_addr_index ≢ some []

  pub default-IsCandidateConsistent : IsCandidateConsistent default
  default-IsCandidateConsistent = record {
    agrees = λ a s. ground (
      arith,
      get_nil {V = List Session} addr_key a,
      get_nil {V = List SocketAddr} sessions s,
      contains_nil sessions.dec s,
      contains_nil SocketAddr-discrete a,
    );
    no_empty = λ a. ground (arith, get_nil {V = List Session} addr_key a);
  }

  suggests-remove :
      (d : RemoteAddrDemux Session) (s t : Session) (a b : SocketAddr)
      → suggests (remove_candidate_session sessions d a s) b t
        ≡ (if eqb SocketAddr-discrete b a && eqb sessions.dec t s then false else suggests d b t)
  unfolding remove_candidate_session
  suggests-remove d s t a b = elim (Option-cases (get addr_key a d.remote_candidate_addr_index)) [
    | inl absent ↦ ground (arith, contains_nil sessions.dec t)
    | inr (l, there) ↦ ground (
      arith,
      get-insert addr_key a b (retain_ne sessions.dec s l) d.remote_candidate_addr_index,
      get-remove addr_key a b
          (insert addr_key a (retain_ne sessions.dec s l) d.remote_candidate_addr_index),
      contains-retain_ne sessions.dec s t l,
      contains_of_empty sessions.dec t (retain_ne sessions.dec s l),
    )
  ]

  suggests-add :
      (d : RemoteAddrDemux Session) (s t : Session) (a b : SocketAddr)
      → suggests (add_candidate_session sessions d s a) b t
        ≡ (suggests d b t || eqb SocketAddr-discrete b a && eqb sessions.dec t s)
  unfolding add_candidate_session
  suggests-add d s t a b =
      let l = or_default (get addr_key a d.remote_candidate_addr_index) in
      ground (
        arith,
        get-insert addr_key a b l d.remote_candidate_addr_index,
        get-insert addr_key a b (l ++ s ∷ []) d.remote_candidate_addr_index,
        contains-push sessions.dec t s l,
      )

  suggests-remove_candidates :
      (addrs : List SocketAddr) (d : RemoteAddrDemux Session) (s t : Session) (b : SocketAddr)
      → suggests (remove_candidates sessions d s addrs) b t ≡ (
          if contains SocketAddr-discrete b addrs && eqb sessions.dec t s
          then false
          else suggests d b t)
  unfolding remove_candidates
  suggests-remove_candidates [] d s t b = ground (arith, contains_nil SocketAddr-discrete b)
  suggests-remove_candidates (a ∷ addrs) d s t b = ground (
    arith,
    contains-cons SocketAddr-discrete b a addrs,
    suggests-remove d s t a b,
    suggests-remove_candidates addrs (remove_candidate_session sessions d a s) s t b,
  )

  suggests-add_candidates :
      (addrs : List SocketAddr) (d : RemoteAddrDemux Session) (s t : Session) (b : SocketAddr)
      (stored : List SocketAddr)
      → suggests (add_candidates sessions d s addrs stored).0 b t
        ≡ (suggests d b t || contains SocketAddr-discrete b addrs && eqb sessions.dec t s)
  unfolding add_candidates
  suggests-add_candidates [] d s t b stored = ground (arith, contains_nil SocketAddr-discrete b)
  suggests-add_candidates (a ∷ addrs) d s t b stored = ground (
    arith,
    contains-cons SocketAddr-discrete b a addrs,
    suggests-add d s t a b,
    suggests-add_candidates addrs (add_candidate_session sessions d s a) s t b (stored ++ a ∷ []),
  )

  stored-add_candidates :
      (addrs : List SocketAddr) (d : RemoteAddrDemux Session) (s : Session)
      (stored : List SocketAddr)
      → (add_candidates sessions d s addrs stored).1 ≡ stored ++ addrs
  unfolding add_candidates
  stored-add_candidates [] d s stored = sym (append-nil stored)
  stored-add_candidates (a ∷ addrs) d s stored =
      stored-add_candidates addrs (add_candidate_session sessions d s a) s (stored ++ a ∷ [])
      ∙ append_assoc stored (a ∷ []) addrs

  lists-add_candidates :
      (addrs : List SocketAddr) (d : RemoteAddrDemux Session) (s : Session)
      (stored : List SocketAddr)
      → (add_candidates sessions d s addrs stored).0.remote_candidate_addrs_by_session
        ≡ d.remote_candidate_addrs_by_session
  unfolding add_candidates add_candidate_session
  lists-add_candidates [] d s stored = refl
  lists-add_candidates (a ∷ addrs) d s stored =
      lists-add_candidates addrs (add_candidate_session sessions d s a) s (stored ++ a ∷ [])

  lists-remove_candidates :
      (addrs : List SocketAddr) (d : RemoteAddrDemux Session) (s : Session)
      → (remove_candidates sessions d s addrs).remote_candidate_addrs_by_session
        ≡ d.remote_candidate_addrs_by_session
  unfolding remove_candidates remove_candidate_session
  lists-remove_candidates [] d s = refl
  lists-remove_candidates (a ∷ addrs) d s =
      ground (arith, lists-remove_candidates addrs (remove_candidate_session sessions d a s) s)

  -- Dropping a session takes it off the index, for the addresses that it listed.
  suggests-drop :
      (d : RemoteAddrDemux Session) (s t : Session) (b : SocketAddr)
      → IsCandidateConsistent d
      → suggests (drop_candidates sessions d s) b t
        ≡ (if eqb sessions.dec t s then false else suggests d b t)
  unfolding drop_candidates
  suggests-drop d s t b c =
      let rest = remove sessions s d.remote_candidate_addrs_by_session in
      let unlisted = record d { remote_candidate_addrs_by_session = rest } in
      elim (Option-cases (get sessions s d.remote_candidate_addrs_by_session)) [
        | inl absent ↦ ground (arith, c.agrees b t, contains_nil SocketAddr-discrete b)
        | inr (l, there) ↦ ground (arith, c.agrees b t, suggests-remove_candidates l unlisted s t b)
      ]

  -- On a consistent demultiplexer, after `replace_session_remote_candidate_addrs`, the session is
  -- a candidate for exactly the new addresses, and every other session for the addresses that it
  -- was one for.
  pub suggests-replace :
      (d : RemoteAddrDemux Session) (s : Session) (addrs : List SocketAddr) (t : Session)
      (b : SocketAddr)
      → IsCandidateConsistent d
      → suggests (replace_session_remote_candidate_addrs sessions d s addrs) b t
        ≡ (if eqb sessions.dec t s then contains SocketAddr-discrete b addrs else suggests d b t)
  unfolding replace_session_remote_candidate_addrs
  suggests-replace d s addrs t b c = ground (
    arith,
    suggests-add_candidates addrs (drop_candidates sessions d s) s t b [],
    suggests-drop d s t b c,
  )

  lists-drop :
      (d : RemoteAddrDemux Session) (s t : Session)
      → get sessions t (drop_candidates sessions d s).remote_candidate_addrs_by_session ≡ (
          if eqb sessions.dec t s then none else get sessions t d.remote_candidate_addrs_by_session)
  unfolding drop_candidates
  lists-drop d s t =
      let rest = remove sessions s d.remote_candidate_addrs_by_session in
      let unlisted = record d { remote_candidate_addrs_by_session = rest } in
      elim (Option-cases (get sessions s d.remote_candidate_addrs_by_session)) [
        | inl absent ↦ ground arith
        | inr (l, there) ↦ ground (
          arith,
          lists-remove_candidates l unlisted s,
          get-remove sessions s t d.remote_candidate_addrs_by_session,
        )
      ]

  -- The session's list holds the new addresses in order, and no other session's list changes.
  pub candidate_addrs_of-replace :
      (d : RemoteAddrDemux Session) (s : Session) (addrs : List SocketAddr) (t : Session)
      → candidate_addrs_of (replace_session_remote_candidate_addrs sessions d s addrs) t
        ≡ (if eqb sessions.dec t s then addrs else candidate_addrs_of d t)
  unfolding replace_session_remote_candidate_addrs
  candidate_addrs_of-replace d s addrs t =
      let dropped = drop_candidates sessions d s in
      let added = add_candidates sessions dropped s addrs [] in
      ground (
        arith,
        stored-add_candidates addrs dropped s [],
        lists-add_candidates addrs dropped s [],
        get-insert sessions s t added.1 added.0.remote_candidate_addrs_by_session,
        lists-drop d s t,
      )

  no_empty-remove :
      (d : RemoteAddrDemux Session) (s : Session) (a b : SocketAddr)
      → get addr_key b d.remote_candidate_addr_index ≢ some []
      → get addr_key b (remove_candidate_session sessions d a s).remote_candidate_addr_index
        ≢ some []
  unfolding remove_candidate_session
  no_empty-remove d s a b u =
      let l = or_default (get addr_key a d.remote_candidate_addr_index) in
      let kept = retain_ne sessions.dec s l in
      ground (
        arith,
        get-insert addr_key a b kept d.remote_candidate_addr_index,
        get-remove addr_key a b (insert addr_key a kept d.remote_candidate_addr_index),
      )

  no_empty-remove_candidates :
      (addrs : List SocketAddr) (d : RemoteAddrDemux Session) (s : Session) (b : SocketAddr)
      → get addr_key b d.remote_candidate_addr_index ≢ some []
      → get addr_key b (remove_candidates sessions d s addrs).remote_candidate_addr_index ≢ some []
  unfolding remove_candidates
  no_empty-remove_candidates [] d s b u = u
  no_empty-remove_candidates (a ∷ addrs) d s b u =
      no_empty-remove_candidates addrs (remove_candidate_session sessions d a s) s b
        (no_empty-remove d s a b u)

  no_empty-add :
      (d : RemoteAddrDemux Session) (s : Session) (a b : SocketAddr)
      → get addr_key b d.remote_candidate_addr_index ≢ some []
      → get addr_key b (add_candidate_session sessions d s a).remote_candidate_addr_index ≢ some []
  unfolding add_candidate_session
  no_empty-add d s a b u =
      let l = or_default (get addr_key a d.remote_candidate_addr_index) in
      ground (
        arith,
        contains_nil sessions.dec s,
        get-insert addr_key a b l d.remote_candidate_addr_index,
        get-insert addr_key a b (l ++ s ∷ []) d.remote_candidate_addr_index,
      )

  no_empty-add_candidates :
      (addrs : List SocketAddr) (d : RemoteAddrDemux Session) (s : Session) (b : SocketAddr)
      (stored : List SocketAddr)
      → get addr_key b d.remote_candidate_addr_index ≢ some []
      → get addr_key b (add_candidates sessions d s addrs stored).0.remote_candidate_addr_index
        ≢ some []
  unfolding add_candidates
  no_empty-add_candidates [] d s b stored u = u
  no_empty-add_candidates (a ∷ addrs) d s b stored u =
      no_empty-add_candidates addrs (add_candidate_session sessions d s a) s b (stored ++ a ∷ [])
        (no_empty-add d s a b u)

  no_empty-drop :
      (d : RemoteAddrDemux Session) (s : Session) (b : SocketAddr)
      → get addr_key b d.remote_candidate_addr_index ≢ some []
      → get addr_key b (drop_candidates sessions d s).remote_candidate_addr_index ≢ some []
  unfolding drop_candidates
  no_empty-drop d s b u = elim (Option-cases (get sessions s d.remote_candidate_addrs_by_session)) [
    | inl absent ↦ rw (absent, drop_candidates) u
    | inr (l, there) ↦ rw (there, drop_candidates) (no_empty-remove_candidates l _ s b u)
  ]

  -- Replacing a session's candidate addresses keeps the index and the lists in agreement, and
  -- leaves no address with an empty candidate list.
  pub replace-IsCandidateConsistent :
      (d : RemoteAddrDemux Session) (s : Session) (addrs : List SocketAddr)
      → IsCandidateConsistent d
      → IsCandidateConsistent (replace_session_remote_candidate_addrs sessions d s addrs)
  replace-IsCandidateConsistent d s addrs c = record {
    agrees = λ b t. ground (
      arith,
      c.agrees b t,
      suggests-replace d s addrs t b c,
      candidate_addrs_of-replace d s addrs t,
    );
    no_empty = λ b.
        unfold replace_session_remote_candidate_addrs in
        no_empty-add_candidates addrs (drop_candidates sessions d s) s b []
          (no_empty-drop d s b (c.no_empty b));
  }
