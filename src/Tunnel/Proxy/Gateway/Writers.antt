-- ===== src/Tunnel/Proxy/Gateway/Writers.antt =====
-- Numbers of connections are never given twice, and a closed writer is never written again.
use shin_vpn.Prelude.{
  ℕ, ◌<◌, Bytes, List, [], ◌∷◌, Bool, true, false, if◌then◌else◌, ◌==◌, Option, none, some, ◌≡◌,
  sym, ◌∙◌, arith, ==_iff, Bool-cases, Option-cases, inl, inr,
}
use shin_vpn.Prelude.Assoc.{Assoc, lookup, lookup-insert}
use shin_vpn.Tunnel.Proxy.Gateway.{
  Writer, UniversalProxyGateway, new_gateway, member, update_writer, closed, with_written, start,
  accept, reply, finish, feed_remote_data, close_connection, close_all, stop, Event, started,
  accepted, stopped, replied, remote_data, finished, remote_close, step, run,
}

abbrev find_writer : ℕ → Assoc ℕ Writer → Option Writer
find_writer = lookup ◌==◌

lookup-update_writer :
    (k j : ℕ) (f : Writer → Writer) (ws : Assoc ℕ Writer)
    → find_writer j (update_writer k f ws) ≡ (
        if k == j
        then elim (find_writer j ws) [ none ↦ none | some w ↦ some (f w) ]
        else find_writer j ws)
unfolding update_writer
lookup-update_writer k j f ws = elim (Option-cases (find_writer k ws)) [
  | inl e ↦
      rw (e, update_writer)
        (elim (Bool-cases (k == j)) [
          | inl same ↦ rw same (rw (sym ((==_iff k j).0 same)) (rw e))
          | inr other ↦ rw other
        ])
  | inr (w, e) ↦
      rw (e, update_writer)
        (lookup-insert ◌==◌ ==_iff k j (f w) ws ∙ elim (Bool-cases (k == j)) [
          | inl same ↦ rw same (rw (sym ((==_iff k j).0 same)) (rw e))
          | inr other ↦ rw other
        ])
]

-- Every writer has a number that has been given.
abbrev Known : ℕ → Assoc ℕ Writer → Type 0
Known next ws = (k : ℕ) (w : Writer) → find_writer k ws ≡ some w → k < next

-- A writer that is closing is as it was.
abbrev Stays : Assoc ℕ Writer → Assoc ℕ Writer → Type 0
Stays ws ws' =
    (k : ℕ) (w : Writer)
    → w.is_closing ≡ true
    → find_writer k ws ≡ some w
    → find_writer k ws' ≡ some w

-- What a method may do to a writer.
abbrev Fixes : (Writer → Writer) → Type 0
Fixes f = (w : Writer) → w.is_closing ≡ true → f w ≡ w

closed-Fixes : Fixes closed
closed-Fixes w h = ground arith

with_written-Fixes : (data_ : Bytes) → Fixes (with_written data_)
with_written-Fixes data_ w h = rw h

update_writer-Stays :
    (k : ℕ) (f : Writer → Writer) (ws : Assoc ℕ Writer) → Fixes f → Stays ws (update_writer k f ws)
update_writer-Stays k f ws fixes j w closing e =
    lookup-update_writer k j f ws ∙ elim (Bool-cases (k == j)) [
      | inl same ↦ rw (same, e, fixes w closing)
      | inr other ↦ rw (other, e)
    ]

update_writer-Known :
    (next k : ℕ) (f : Writer → Writer) (ws : Assoc ℕ Writer)
    → Known next ws
    → Known next (update_writer k f ws)
update_writer-Known next k f ws known j w e = elim (Option-cases (find_writer j ws)) [
  | inr (w', e') ↦ known j w' e'
  | inl e' ↦
      let gone : find_writer j (update_writer k f ws) ≡ none =
        lookup-update_writer k j f ws
        ∙ elim (Bool-cases (k == j)) [ inl same ↦ rw (same, e') | inr other ↦ rw (other, e') ] in
      absurd (cc)
]

-- What a step keeps, of a gateway whose writers are known.
record Keeps (g g' : UniversalProxyGateway) : Type 0 where
  known : Known g'.next_conn_id g'.writers
  stays : Stays g.writers g'.writers

Keeps-update :
    (k : ℕ) (f : Writer → Writer) (g : UniversalProxyGateway) (active : List ℕ)
    → Fixes f
    → Known g.next_conn_id g.writers
    → Keeps g (record g { active_connections = active; writers = update_writer k f g.writers })
Keeps-update k f g active fixes known = record {
  known = update_writer-Known g.next_conn_id k f g.writers known;
  stays = update_writer-Stays k f g.writers fixes;
}

Keeps-if :
    (b : Bool) (g d : UniversalProxyGateway)
    → Known g.next_conn_id g.writers
    → Keeps g d
    → Keeps g (if b then d else g)
Keeps-if true g d known h = h
Keeps-if false g d known h = record { known = known; stays = λ k w c e. e }

close_all-Known :
    (next : ℕ) (ks : List ℕ) (ws : Assoc ℕ Writer) → Known next ws → Known next (close_all ks ws)
unfolding close_all
close_all-Known next [] ws h = h
close_all-Known next (k ∷ ks) ws h =
    close_all-Known next ks (update_writer k closed ws) (update_writer-Known next k closed ws h)

close_all-Stays : (ks : List ℕ) (ws : Assoc ℕ Writer) → Stays ws (close_all ks ws)
unfolding close_all
close_all-Stays [] ws k w c e = e
close_all-Stays (j ∷ ks) ws k w c e =
    close_all-Stays ks (update_writer j closed ws) k w c
      (update_writer-Stays j closed ws closed-Fixes k w c e)

-- A new connection has a number that no writer has.
Keeps-accept : (g : UniversalProxyGateway) → Known g.next_conn_id g.writers → Keeps g (accept g).0
unfolding accept
Keeps-accept g known = record {
  known = λ k w e. elim (Bool-cases (g.next_conn_id == k)) [
    | inl same ↦ omega (arith, (==_iff g.next_conn_id k).0 same)
    | inr other ↦
        let e' : find_writer k g.writers ≡ some w =
          rw
            (
              lookup-insert ◌==◌ ==_iff g.next_conn_id k
                  (record { written = []; is_closing = false }) g.writers,
              other,
            )
            at e in
        omega (arith, known k w e')
  ];
  stays = λ k w c e.
      lookup-insert ◌==◌ ==_iff g.next_conn_id k (record { written = []; is_closing = false })
        g.writers
      ∙ elim (Bool-cases (g.next_conn_id == k)) [
        | inl same ↦ absurd (omega (arith, (==_iff g.next_conn_id k).0 same, known k w e))
        | inr other ↦ rw (other, e)
      ];
}

Keeps-step :
    (e : Event) (g : UniversalProxyGateway) → Known g.next_conn_id g.writers → Keeps g (step e g)
unfolding step start stop reply finish feed_remote_data close_connection
Keeps-step started g known = record { known = known; stays = λ k w c e. e }
Keeps-step accepted g known = Keeps-accept g known
Keeps-step stopped g known = record {
  known = close_all-Known g.next_conn_id g.active_connections g.writers known;
  stays = close_all-Stays g.active_connections g.writers;
}
Keeps-step (replied k d) g known =
    Keeps-update k (with_written d) g g.active_connections (with_written-Fixes d) known
Keeps-step (remote_data k d) g known =
    Keeps-if (member k g.active_connections) g _ known
      (Keeps-update k (with_written d) g g.active_connections (with_written-Fixes d) known)
Keeps-step (finished k) g known = Keeps-update k closed g _ closed-Fixes known
Keeps-step (remote_close k) g known =
    Keeps-if (member k g.active_connections) g _ known
      (Keeps-update k closed g _ closed-Fixes known)

Keeps-run :
    (es : List Event) (g : UniversalProxyGateway)
    → Known g.next_conn_id g.writers
    → Keeps g (run es g)
unfolding run
Keeps-run [] g known = record { known = known; stays = λ k w c e. e }
Keeps-run (e ∷ es) g known =
    let first = Keeps-step e g known in
    let rest = Keeps-run es (step e g) first.known in
    record { known = rest.known; stays = λ k w c h. rest.stays k w c (first.stays k w c h) }

new-Known : Known new_gateway.next_conn_id new_gateway.writers
unfolding new_gateway lookup
new-Known k w e = absurd (cc)

-- Whatever has happened to a gateway, and whatever happens then, in any order: the number of a new
-- connection has no writer yet, and once the writer of a connection is closed, it gets nothing more
-- and stays closed, so that no data for an old connection reaches a new one.
pub run-Stays :
    (before after : List Event)
    → let g = run before new_gateway in
      (find_writer (accept g).1 g.writers ≡ none)
      × ((k : ℕ) (w : Writer)
          → w.is_closing ≡ true
          → find_writer k g.writers ≡ some w
          → find_writer k (run after g).writers ≡ some w)
unfolding accept
run-Stays before after =
    let g = run before new_gateway in
    let reached = Keeps-run before new_gateway new-Known in
    (
      elim (Option-cases (find_writer g.next_conn_id g.writers)) [
        | inl e ↦ e
        | inr (w, e) ↦ absurd (omega (arith, reached.known g.next_conn_id w e))
      ],
      (Keeps-run after g reached.known).stays,
    )
