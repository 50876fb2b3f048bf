-- ===== src/Tunnel/KillSwitch/Iptables.antt =====
-- What the kill switch of shinvpn/tunnel/killswitch.py relies on of iptables, as its manual has it,
-- and what follows for the chain OUTPUT.
use shin_vpn.Prelude.{
  List, [], ◌∷◌, ◌++◌, Bool, true, false, not, ◌&&◌, ◌||◌, if◌then◌else◌, Option, none, some, ok,
  inl, inr, Option-cases, ◌≡◌, refl, ap, sym, ◌∙◌, map, reverse, bytes_eq, bytes_eq_refl, All,
  arith,
}
use mathlib.Core.List.{append_assoc, append-nil, reverse-cons}
use shin_vpn.Prelude.Exec.{Exec}
use shin_vpn.Prelude.Utf8.{Text, codes}
use shin_vpn.Tunnel.Shell.{World, run_all}

unfoldable pub without_first : Text → List Text → List Text
without_first r [] = []
without_first r (x ∷ xs) = let rest = x ∷ without_first r xs in if bytes_eq r x then xs else rest

unfoldable pub has_rule : Text → List Text → Bool
has_rule r [] = false
has_rule r (x ∷ xs) = bytes_eq r x || has_rule r xs

-- No rule is in the chain already, or twice in the list.
unfoldable pub are_new : List Text → List Text → Bool
unfolding has_rule
are_new chain [] = true
are_new chain (r ∷ rs) = not (has_rule r chain) && are_new (chain ++ (r ∷ [])) rs

module _ {P : Type 0} (matches : Text → P → Bool) where
  -- The first rule that matches a packet decides.
  unfoldable pub verdict : (Text → Bool) → List Text → P → Option Bool
  verdict accepts [] p = none
  verdict accepts (r ∷ rs) p =
      let later = verdict accepts rs p in if matches r p then some (accepts r) else later

  unfoldable pub any_matches : List Text → P → Bool
  any_matches [] p = false
  any_matches (r ∷ rs) p = matches r p || any_matches rs p

abbrev pub or_else : Option Bool → Bool → Bool
or_else none b = b
or_else (some a) b = a

abbrev pub append_command : Text → Text
append_command r = codes "iptables -A OUTPUT " ++ r

abbrev pub delete_command : Text → Text
delete_command r = codes "iptables -D OUTPUT " ++ r

-- A system where the commands succeed. `is_rule` tells the texts that iptables takes for a rule.
pub record Iptables {S : Type 0} (run : Text → Exec S Unit) : Type 1 where
  pub Packet : Type 0
  pub policy : Bool
  pub chain : S → List Text
  pub is_rule : Text → Bool
  pub matches : Text → Packet → Bool
  pub accepts : Text → Bool
  pub passes : S → Packet → Bool
  pub run-append :
      (s : S) (r : Text)
      → is_rule r ≡ true
      → ((run (append_command r) s).1 ≡ ok tt)
        × (chain (run (append_command r) s).0 ≡ chain s ++ (r ∷ []))
  pub run-delete :
      (s : S) (r : Text)
      → is_rule r ≡ true
      → ((run (delete_command r) s).1 ≡ ok tt)
        × (chain (run (delete_command r) s).0 ≡ without_first r (chain s))
  pub passes-chain :
      (s : S) (p : Packet) → passes s p ≡ or_else (verdict matches accepts (chain s) p) policy
  pub accepts-accept : (t : Text) → accepts (t ++ codes " -j ACCEPT") ≡ true
  pub accepts-drop : accepts (codes "-j DROP") ≡ false
  pub matches-drop : (p : Packet) → matches (codes "-j DROP") p ≡ true

module _ {P : Type 0} (matches : Text → P → Bool) (accepts : Text → Bool) (p : P) where
  -- Rules are followed by others: those decide what the first ones leave open.
  verdict-append :
      (rs qs : List Text)
      → verdict matches accepts (rs ++ qs) p ≡ elim (verdict matches accepts rs p) [
        | none ↦ verdict matches accepts qs p
        | some b ↦ some b
      ]
  unfolding verdict
  verdict-append [] qs = refl
  verdict-append (r ∷ rs) qs = ground (arith, verdict-append rs qs)

  verdict-accepting :
      (rs : List Text) (last : Text)
      → All (λ r. accepts r ≡ true) rs
      → accepts last ≡ false
      → matches last p ≡ true
      → verdict matches accepts (rs ++ (last ∷ [])) p ≡ some (any_matches matches rs p)
  unfolding verdict any_matches
  verdict-accepting [] last a d m = ground (arith)
  verdict-accepting (r ∷ rs) last a d m = ground (arith, verdict-accepting rs last a.1 d m)

  -- A chain that has been given exceptions, and a last rule that refuses the rest.
  pub or_else-verdict :
      (policy : Bool) (chain rs : List Text) (last : Text)
      → All (λ r. accepts r ≡ true) rs
      → accepts last ≡ false
      → matches last p ≡ true
      → or_else (verdict matches accepts (chain ++ (rs ++ (last ∷ []))) p) policy
        ≡ or_else (verdict matches accepts chain p) (any_matches matches rs p)
  or_else-verdict policy chain rs last a d m =
      rw (verdict-append chain (rs ++ (last ∷ [])))
        (elim (Option-cases (verdict matches accepts chain p)) [
          | inl e ↦ rw (e, verdict-accepting rs last a d m)
          | inr (b, e) ↦ rw e
        ])

without_first-last :
    (r : Text) (chain : List Text)
    → has_rule r chain ≡ false
    → without_first r (chain ++ (r ∷ [])) ≡ chain
unfolding without_first has_rule
without_first-last r [] h = rw (bytes_eq_refl r)
without_first-last r (x ∷ chain) h = ground (arith, without_first-last r chain)

unfoldable pub without_all : List Text → List Text → List Text
unfolding without_first
without_all [] chain = chain
without_all (r ∷ rs) chain = without_all rs (without_first r chain)

without_all-append :
    (rs qs chain : List Text) → without_all (rs ++ qs) chain ≡ without_all qs (without_all rs chain)
unfolding without_all
without_all-append [] qs chain = refl
without_all-append (r ∷ rs) qs chain = without_all-append rs qs (without_first r chain)

-- Rules that are taken away in the reverse order leave the chain as it was.
pub without_all-reverse :
    (rs chain : List Text)
    → are_new chain rs ≡ true
    → without_all (reverse rs) (chain ++ rs) ≡ chain
unfolding are_new without_all
without_all-reverse [] chain h = append-nil chain
without_all-reverse (r ∷ rs) chain h =
    rw
      (
        reverse-cons,
        without_all-append (reverse rs) (r ∷ []),
        sym (append_assoc chain (r ∷ []) rs),
        without_all-reverse rs (chain ++ (r ∷ [])) (ground arith),
      )
      (without_first-last r chain (ground arith))

abbrev pub Rules : {S : Type 0} {run : Text → Exec S Unit} → Iptables run → List Text → Type 0
Rules t = All (λ r. t.is_rule r ≡ true)

module _ {S O : Type 0} (run : Text → Exec S Unit) (t : Iptables run) where
  -- The commands do not raise, and leave the object as it was and the chain so.
  abbrev pub Leaves : List Text → Exec (World O S) Unit → World O S → Type 0
  Leaves chain m w = ((m w).1 ≡ ok tt) × ((m w).0.self ≡ w.self) × (t.chain (m w).0.system ≡ chain)

  pub run_all-append :
      (rs : List Text) (w : World O S)
      → Rules t rs
      → Leaves (t.chain w.system ++ rs) (run_all run (map append_command rs)) w
  unfolding run_all
  run_all-append [] w h = (refl, refl, sym (append-nil (t.chain w.system)))
  run_all-append (r ∷ rs) w h =
      let ih = run_all-append rs (record w { system = (run (append_command r) w.system).0 }) h.1 in
      rw ((t.run-append w.system r h.0).0) (
        ih.0,
        ih.1,
        ih.2
            ∙ (ap (λ c. c ++ rs) (t.run-append w.system r h.0).1
                ∙ append_assoc (t.chain w.system) (r ∷ []) rs),
      )

  pub run_all-delete :
      (rs : List Text) (w : World O S)
      → Rules t rs
      → Leaves (without_all rs (t.chain w.system)) (run_all run (map delete_command rs)) w
  unfolding run_all without_all
  run_all-delete [] w h = (refl, refl, refl)
  run_all-delete (r ∷ rs) w h =
      let ih = run_all-delete rs (record w { system = (run (delete_command r) w.system).0 }) h.1 in
      rw ((t.run-delete w.system r h.0).0)
        (ih.0, ih.1, ih.2 ∙ ap (without_all rs) (t.run-delete w.system r h.0).1)
