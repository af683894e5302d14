-- ===== src/Demux/Routes.antt =====
-- The learned routes of src/rtc_udp_demux.rs: the address index against the per-session lists, as
-- `remember_remote_addr` changes them.
use o_sfu_benchmarks.Base.{
  Bool, false, Option, none, some, List, [], ◌∷◌, ◌++◌, ◌≡◌, ◌↔◌, refl, inl, inr, arith, eqb,
  if◌then◌else◌, contains, retain_ne, contains-push, contains-retain_ne, contains_nil,
  contains_of_empty, ◌&&◌, ◌||◌, Bool-cases, Option-cases, ◌≢◌,
}
use o_sfu_benchmarks.Base.Map.{
  Key, get, insert, get-insert, get-remove, IsKeyed, insert-IsKeyed, remove-IsKeyed,
}
use o_sfu_benchmarks.Demux.Defs.{
  SocketAddr, SocketAddr-discrete, addr_key, RemoteAddrDemux, or_default, routes_to,
  session_key_for_remote_addr, remove_remote_addr_from_session, push_remote_addr, forget_previous,
  remember_remote_addr,
}

module _ {Session : Type 0} (sessions : Key Session) where
  -- The addresses listed for a session.
  abbrev pub addrs_of : RemoteAddrDemux Session → Session → List SocketAddr
  addrs_of d s = or_default (get sessions s d.remote_addrs_by_session)

  abbrev pub lists : RemoteAddrDemux Session → Session → SocketAddr → Bool
  lists d s a = contains SocketAddr-discrete a (addrs_of d s)

  -- The index and the lists agree, no list is empty, and no session has two lists.
  pub record IsConsistent (d : RemoteAddrDemux Session) : Type 0 where
    pub agrees :
        (s : Session) (a : SocketAddr)
        → lists d s a ≡ routes_to sessions (session_key_for_remote_addr sessions d a) s
    pub no_empty : (s : Session) → get sessions s d.remote_addrs_by_session ≢ some []
    pub keyed : IsKeyed sessions d.remote_addrs_by_session

  pub lists-remove :
      (d : RemoteAddrDemux Session) (p t : Session) (a b : SocketAddr)
      → lists (remove_remote_addr_from_session sessions d p a) t b
        ≡ (if eqb sessions.dec t p && eqb SocketAddr-discrete b a then false else lists d t b)
  unfolding remove_remote_addr_from_session
  lists-remove d p t a b = elim (Option-cases (get sessions p d.remote_addrs_by_session)) [
    | inl absent ↦ ground (arith, contains_nil SocketAddr-discrete b)
    | inr (l, there) ↦ ground (
      arith,
      get-insert sessions p t (retain_ne SocketAddr-discrete a l) d.remote_addrs_by_session,
      get-remove sessions p t
          (insert sessions p (retain_ne SocketAddr-discrete a l) d.remote_addrs_by_session),
      contains-retain_ne SocketAddr-discrete a b l,
      contains_of_empty SocketAddr-discrete b (retain_ne SocketAddr-discrete a l),
    )
  ]

  pub lists-push :
      (d : RemoteAddrDemux Session) (s t : Session) (a b : SocketAddr)
      → lists (push_remote_addr sessions d s a) t b
        ≡ (lists d t b || eqb sessions.dec t s && eqb SocketAddr-discrete b a)
  unfolding push_remote_addr
  lists-push d s t a b = ground (
    arith,
    get-insert sessions s t (addrs_of d s) d.remote_addrs_by_session,
    get-insert sessions s t (addrs_of d s ++ a ∷ []) d.remote_addrs_by_session,
    contains-push SocketAddr-discrete b a (addrs_of d s),
  )

  index-forget :
      (d : RemoteAddrDemux Session) (o : Option Session) (a : SocketAddr)
      → (forget_previous sessions d o a).remote_addr_index ≡ d.remote_addr_index
  unfolding forget_previous remove_remote_addr_from_session
  index-forget d none a = refl
  index-forget d (some p) a = ground arith

  index-push :
      (d : RemoteAddrDemux Session) (s : Session) (a : SocketAddr)
      → (push_remote_addr sessions d s a).remote_addr_index ≡ d.remote_addr_index
  unfolding push_remote_addr
  index-push d s a = refl

  -- `forget_previous` takes the address off the list of the session that had it.
  lists-forget :
      (d : RemoteAddrDemux Session) (o : Option Session) (t : Session) (a b : SocketAddr)
      → lists (forget_previous sessions d o a) t b
        ≡ (if routes_to sessions o t && eqb SocketAddr-discrete b a then false else lists d t b)
  unfolding forget_previous
  lists-forget d none t a b = refl
  lists-forget d (some p) t a b = ground (arith, lists-remove d p t a b)

  -- After `remember_remote_addr` the address routes to the session, and every other address
  -- routes where it did.
  pub route-remember :
      (d : RemoteAddrDemux Session) (a : SocketAddr) (s : Session) (b : SocketAddr)
      → session_key_for_remote_addr sessions (remember_remote_addr sessions d a s).0 b
        ≡ (if eqb SocketAddr-discrete b a then some s else session_key_for_remote_addr sessions d b)
  unfolding remember_remote_addr
  route-remember d a s b =
      let previous = get addr_key a d.remote_addr_index in
      let indexed = record d { remote_addr_index = insert addr_key a s d.remote_addr_index } in
      ground (
        arith,
        get-insert addr_key a b s d.remote_addr_index,
        index-push (forget_previous sessions indexed previous a) s a,
        index-forget indexed previous a,
      )

  lists-remember :
      (d : RemoteAddrDemux Session) (a : SocketAddr) (s t : Session) (b : SocketAddr)
      → IsConsistent d
      → lists (remember_remote_addr sessions d a s).0 t b
        ≡ (if eqb SocketAddr-discrete b a then eqb sessions.dec s t else lists d t b)
  unfolding remember_remote_addr
  lists-remember d a s t b c =
      let previous = get addr_key a d.remote_addr_index in
      let indexed = record d { remote_addr_index = insert addr_key a s d.remote_addr_index } in
      ground (
        arith,
        c.agrees t b,
        lists-push (forget_previous sessions indexed previous a) s t a b,
        lists-forget indexed previous t a b,
      )

  remove_from_session-IsKeyed :
      (d : RemoteAddrDemux Session) (p : Session) (a : SocketAddr)
      → IsKeyed sessions d.remote_addrs_by_session
      → IsKeyed sessions (remove_remote_addr_from_session sessions d p a).remote_addrs_by_session
  unfolding remove_remote_addr_from_session
  remove_from_session-IsKeyed d p a u =
      let l = retain_ne SocketAddr-discrete a (addrs_of d p) in
      let m = insert sessions p l d.remote_addrs_by_session in
      ground (
        arith,
        insert-IsKeyed sessions p l d.remote_addrs_by_session u,
        remove-IsKeyed sessions p m,
      )

  forget-IsKeyed :
      (d : RemoteAddrDemux Session) (o : Option Session) (a : SocketAddr)
      → IsKeyed sessions d.remote_addrs_by_session
      → IsKeyed sessions (forget_previous sessions d o a).remote_addrs_by_session
  unfolding forget_previous
  forget-IsKeyed d none a u = u
  forget-IsKeyed d (some p) a u = remove_from_session-IsKeyed d p a u

  no_empty-remove :
      (d : RemoteAddrDemux Session) (p t : Session) (a : SocketAddr)
      → get sessions t d.remote_addrs_by_session ≢ some []
      → get sessions t (remove_remote_addr_from_session sessions d p a).remote_addrs_by_session
        ≢ some []
  unfolding remove_remote_addr_from_session
  no_empty-remove d p t a u =
      let l = retain_ne SocketAddr-discrete a (addrs_of d p) in
      let m = insert sessions p l d.remote_addrs_by_session in
      ground (arith, get-insert sessions p t l d.remote_addrs_by_session, get-remove sessions p t m)

  no_empty-push :
      (d : RemoteAddrDemux Session) (s t : Session) (a : SocketAddr)
      → get sessions t d.remote_addrs_by_session ≢ some []
      → get sessions t (push_remote_addr sessions d s a).remote_addrs_by_session ≢ some []
  unfolding push_remote_addr
  no_empty-push d s t a u = ground (
    arith,
    contains_nil SocketAddr-discrete a,
    get-insert sessions s t (addrs_of d s) d.remote_addrs_by_session,
    get-insert sessions s t (addrs_of d s ++ a ∷ []) d.remote_addrs_by_session,
  )

  no_empty-forget :
      (d : RemoteAddrDemux Session) (o : Option Session) (t : Session) (a : SocketAddr)
      → get sessions t d.remote_addrs_by_session ≢ some []
      → get sessions t (forget_previous sessions d o a).remote_addrs_by_session ≢ some []
  unfolding forget_previous
  no_empty-forget d none t a u = u
  no_empty-forget d (some p) t a u = no_empty-remove d p t a u

  -- `remember_remote_addr` keeps the index and the per-session lists in agreement, leaves no
  -- session with an empty list and no session with two lists.
  pub remember-IsConsistent :
      (d : RemoteAddrDemux Session) (a : SocketAddr) (s : Session)
      → IsConsistent d
      → IsConsistent (remember_remote_addr sessions d a s).0
  remember-IsConsistent d a s c = record {
    agrees =
        λ t b. ground (arith, c.agrees t b, lists-remember d a s t b c, route-remember d a s b);
    no_empty = λ t.
        unfold remember_remote_addr in
        elim (Bool-cases (routes_to sessions previous s)) [
          | inl same ↦ rw same (c.no_empty t)
          | inr other ↦ rw other (
              no_empty-push (forget_previous sessions indexed previous a) s t a
                (no_empty-forget indexed previous t a (c.no_empty t)))
        ];
    keyed =
        unfold remember_remote_addr push_remote_addr in
        elim (Bool-cases (routes_to sessions previous s)) [
          | inl same ↦ rw same c.keyed
          | inr other ↦
              rw other (insert-IsKeyed sessions s _ _ (forget-IsKeyed indexed previous a c.keyed))
        ];
  }
    where
      previous : Option Session
      previous = get addr_key a d.remote_addr_index

      indexed : RemoteAddrDemux Session
      indexed = record d { remote_addr_index = insert addr_key a s d.remote_addr_index }

  -- The returned flag is false exactly when the address already routed to the session.
  pub remember-changed :
      (d : RemoteAddrDemux Session) (a : SocketAddr) (s : Session)
      → ((remember_remote_addr sessions d a s).1 ≡ false)
        ↔ (session_key_for_remote_addr sessions d a ≡ some s)
  unfolding remember_remote_addr
  remember-changed d a s = ground arith
