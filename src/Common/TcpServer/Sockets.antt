-- ===== src/Common/TcpServer/Sockets.antt =====
-- The sockets of a server: each once, none lost.
use nano_trade.Base.{
  ℕ, ◌≡◌, refl, sym, ◌∙◌, arith, Bool, true, false, Bool-cases, inl, inr, ◌&&◌, ◌||◌, not, ◌==◌,
  List, [], ◌∷◌, ◌++◌, append-nil, append_assoc,
}
use nano_trade.Base.Lists.{All, All-map, Distinct, NotIn, All-append}
use nano_trade.Base.Outcome.{ok}
use nano_trade.Common.TcpServer.{
  TcpServer, Event, Connection, is_in, add_socket, add_if, on_event, on_events, has_request,
  accept_all, poll,
}

-- The list `ts` and some sockets behind it.
abbrev pub Extends : List ℕ → List ℕ → Type 0
Extends ts us = (vs : List ℕ) × (us ≡ ts ++ vs)

NotIn-is_in : (s : ℕ) (ts : List ℕ) → is_in s ts ≡ false → NotIn s ts
unfolding is_in
NotIn-is_in s [] h = tt
NotIn-is_in s (t ∷ ts) h = (λ e. ground (arith, e, h), NotIn-is_in s ts (ground (arith, h)))

Distinct-snoc : (s : ℕ) (ts : List ℕ) → Distinct ts → NotIn s ts → Distinct (ts ++ s ∷ [])
Distinct-snoc s [] d n = (tt, tt)
Distinct-snoc s (t ∷ ts) d n =
    (All-append _ ts (s ∷ []) d.0 (λ e. n.0 (sym e), tt), Distinct-snoc s ts d.1 n.1)

is_in-append : (s : ℕ) (ts us : List ℕ) → is_in s ts ≡ true → is_in s (ts ++ us) ≡ true
unfolding is_in
is_in-append s [] us h = cc
is_in-append s (t ∷ ts) us h = elim (Bool-cases (t == s)) [
  | inl e ↦ rw e refl
  | inr e ↦ rw e (is_in-append s ts us (ground (arith, h, e)))
]

is_in-snoc : (s : ℕ) (ts : List ℕ) → is_in s (ts ++ s ∷ []) ≡ true
unfolding is_in
is_in-snoc s [] = ground arith
is_in-snoc s (t ∷ ts) = ground (arith, is_in-snoc s ts)

-- A list that has grown to hold the socket `s`, each of its sockets still once.
record Added (s : ℕ) (ts us : List ℕ) : Type 0 where
  distinct : Distinct ts → Distinct us
  extends : Extends ts us
  holds : is_in s us ≡ true

add_socket-Added : (s : ℕ) (ts : List ℕ) → Added s ts (add_socket s ts)
unfolding add_socket
add_socket-Added s ts = elim (Bool-cases (is_in s ts)) [
  | inl old ↦
      rw old (record { distinct = λ d. d; extends = ([], sym (append-nil ts)); holds = old })
  | inr new ↦ rw new (record {
    distinct = λ d. Distinct-snoc s ts d (NotIn-is_in s ts new);
    extends = (s ∷ [], refl);
    holds = is_in-snoc s ts;
  })
]

add_if-Added :
    (b : Bool) (s : ℕ) (ts : List ℕ)
    → (Distinct ts → Distinct (add_if b s ts))
      × Extends ts (add_if b s ts)
      × ((not b || is_in s (add_if b s ts)) ≡ true)
add_if-Added true s ts = let a = add_socket-Added s ts in (a.distinct, a.extends, a.holds)
add_if-Added false s ts = (λ d. d, ([], sym (append-nil ts)), refl)

Extends-trans : (ts us vs : List ℕ) → Extends ts us → Extends us vs → Extends ts vs
Extends-trans ts us vs (xs, e) (ys, f) = (xs ++ ys, rw (f, e) (append_assoc ts xs ys))

is_in-Extends : (s : ℕ) (ts us : List ℕ) → Extends ts us → is_in s ts ≡ true → is_in s us ≡ true
is_in-Extends s ts us (xs, e) h = rw e (is_in-append s ts xs h)

-- A server whose lists have grown at their ends, by sockets that were not in them.
pub record Grown (v w : TcpServer) : Type 0 where
  pub receive_distinct : Distinct v.receive_sockets → Distinct w.receive_sockets
  pub send_distinct : Distinct v.send_sockets → Distinct w.send_sockets
  pub receive_extends : Extends v.receive_sockets w.receive_sockets
  pub send_extends : Extends v.send_sockets w.send_sockets
  pub listener : w.listener_socket ≡ v.listener_socket

Grown-refl : (v : TcpServer) → Grown v v
Grown-refl v = record {
  receive_distinct = λ d. d;
  send_distinct = λ d. d;
  receive_extends = ([], sym (append-nil v.receive_sockets));
  send_extends = ([], sym (append-nil v.send_sockets));
  listener = refl;
}

Grown-trans : (u v w : TcpServer) → Grown u v → Grown v w → Grown u w
Grown-trans u v w g h = record {
  receive_distinct = λ d. h.receive_distinct (g.receive_distinct d);
  send_distinct = λ d. h.send_distinct (g.send_distinct d);
  receive_extends = Extends-trans _ _ _ g.receive_extends h.receive_extends;
  send_extends = Extends-trans _ _ _ g.send_extends h.send_extends;
  listener = h.listener ∙ g.listener;
}

-- The event says that a socket other than the listener has something to read.
abbrev pub is_readable : ℕ → Event → Bool
is_readable listener e = e.has_in && not (e.socket == listener)

-- If it says so, the socket is among the ones that are read.
abbrev pub IsHeard : TcpServer → Event → Type 0
IsHeard w e = (not (is_readable w.listener_socket e) || is_in e.socket w.receive_sockets) ≡ true

on_event-Grown : (v : TcpServer) (e : Event) → Grown v (on_event v e) × IsHeard (on_event v e) e
unfolding on_event
on_event-Grown v e = elim (Bool-cases (e.has_in && (e.socket == v.listener_socket))) [
  | inl asks ↦ rw asks (Grown-refl v, ground (arith, asks))
  | inr other ↦
      let (d₁, x₁, h₁) = add_if-Added e.has_in e.socket v.receive_sockets in
      let (d₂, x₂, h₂) =
        add_if-Added e.has_error e.socket (add_if e.has_in e.socket v.receive_sockets) in
      let (d₃, x₃, h₃) = add_if-Added e.has_out e.socket v.send_sockets in
      rw other (
        record {
          receive_distinct = λ d. d₂ (d₁ d);
          send_distinct = d₃;
          receive_extends = Extends-trans _ _ _ x₁ x₂;
          send_extends = x₃;
          listener = refl;
        },
        heard e.has_in (e.socket == v.listener_socket) h₁ (is_in-Extends e.socket _ _ x₂),
      )
]
  where
    heard :
        (i l : Bool) {x y : Bool}
        → (not i || x) ≡ true
        → (x ≡ true → y ≡ true)
        → (not (i && not l) || y) ≡ true
    heard false l h f = refl
    heard true true h f = refl
    heard true false h f = f h

IsHeard-Grown : (v w : TcpServer) → Grown v w → (e : Event) → IsHeard v e → IsHeard w e
IsHeard-Grown v w g e h =
    rw g.listener
      (either (is_readable v.listener_socket e) h (is_in-Extends e.socket _ _ g.receive_extends))
  where
    either :
        (r : Bool) {x y : Bool} → (not r || x) ≡ true → (x ≡ true → y ≡ true) → (not r || y) ≡ true
    either false h f = refl
    either true h f = f h

on_events-Grown :
    (es : List Event) (v : TcpServer) → Grown v (on_events v es) × All (IsHeard (on_events v es)) es
unfolding on_events
on_events-Grown [] v = (Grown-refl v, tt)
on_events-Grown (e ∷ es) v =
    let (g, h) = on_event-Grown v e in
    let (gs, hs) = on_events-Grown es (on_event v e) in
    (Grown-trans _ _ _ g gs, (IsHeard-Grown _ _ gs e h, hs))

-- The connection can be set up and watched.
pub record IsUsable (c : Connection) : Type 0 where
  pub set_up : c.is_set_up ≡ true
  pub watched : c.is_watched ≡ true

-- The socket of the connection is among the ones that are read.
abbrev pub IsAccepted : TcpServer → Connection → Type 0
IsAccepted w c = is_in c.socket w.receive_sockets ≡ true

accept_all-Grown :
    (cs : List Connection) (v : TcpServer)
    → All IsUsable cs
    → (w : TcpServer) × (accept_all v cs ≡ ok w) × Grown v w × All (IsAccepted w) cs
unfolding accept_all
accept_all-Grown [] v u = (v, refl, Grown-refl v, tt)
accept_all-Grown (c ∷ cs) v u =
    let a = add_socket-Added c.socket v.receive_sockets in
    let v' = record v { receive_sockets = add_socket c.socket v.receive_sockets } in
    let g : Grown v v' = record {
      receive_distinct = a.distinct;
      send_distinct = λ d. d;
      receive_extends = a.extends;
      send_extends = ([], sym (append-nil v.send_sockets));
      listener = refl;
    } in
    let (w, runs, grown, accepted) = accept_all-Grown cs v' u.1 in
    (
      w,
      rw (u.0.set_up, u.0.watched) runs,
      Grown-trans v v' w g grown,
      (is_in-Extends c.socket _ _ grown.receive_extends a.holds, accepted),
    )

-- When an event is a request for a connection, and the new connections can be set up and watched:
-- `poll` ends without a fault. The two lists of sockets have grown at their ends alone, no socket
-- comes to be in one of them twice, and every socket that has something to read and every new
-- connection is among the ones that are read.
pub poll-Grown :
    (v : TcpServer) (es : List Event) (cs : List Connection)
    → All IsUsable cs
    → has_request v.listener_socket es ≡ true
    → (w : TcpServer) × (poll v es cs ≡ ok w)
      × Grown v w
      × All (IsHeard w) es
      × All (IsAccepted w) cs
unfolding poll
poll-Grown v es cs usable asked =
    let (g, heard) = on_events-Grown es v in
    let (w, runs, grown, accepted) = accept_all-Grown cs (on_events v es) usable in
    (
      w,
      rw asked runs,
      Grown-trans _ _ _ g grown,
      All-map es (λ e h. IsHeard-Grown _ _ grown e h) heard,
      accepted,
    )
