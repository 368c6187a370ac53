-- ===== src/PathPlane/Arrive/Reflected.antt =====
-- A ping of this end's own that comes back to it (src/pathplane.c).
use comrade.Prelude.{
  ℕ, ◌≡◌, ◌⊎◌, inl, inr, refl, Bool, true, false, not, Option, some, List, [], ◌∷◌, ◌++◌, ◌==◌,
  arith, bytes_eq, if-keeps, subst, sym, if◌then◌else◌,
}
use comrade.Paths.Ep.{Ep, Os, Sockaddr}
use comrade.Paths.Types.{PathKind}
use comrade.Paths.Observe.{Probe}
use comrade.Seal.{Aead}
use comrade.ProbePlane.{plane_open, fresh}
use comrade.PathPlane.{PathPlane, Sinks, Effect, heard_at}
use comrade.PathPlane.Arrive.{
  probe_ping, from_src, nonce_path, reflected, apply_ping, plane_apply, recv_open, recv_on, recv,
}

-- Nothing goes out and nothing but the keys' state changes; that something was heard may be told.
abbrev Silent : (now : ℕ) → PathPlane → List Effect × PathPlane → Type 0
Silent now pl r = ((r.0 ≡ []) ⊎ (r.0 ≡ heard_at now ∷ [])) × (r.1 ≡ record pl { pp = r.1.pp })

module _ (os : Os) (aead : Aead) (pl : PathPlane) (k : Sinks) (pr : Probe) (kind : PathKind)
    (src : Option Sockaddr) (agent : Option ℕ) (now : ℕ) (random : Option (List ℕ)) where
  apply_ping-reflected :
      (from : Ep)
      → reflected pl.t pr ≡ true
      → apply_ping os aead pl k pr kind from src agent now random ≡ ([], pl)
  unfolding apply_ping
  apply_ping-reflected from e = simp e refl

  apply-reflected :
      pr.type ≡ probe_ping
      → reflected pl.t pr ≡ true
      → plane_apply os aead pl k pr kind src agent now random ≡ ([], pl)
  unfolding plane_apply
  apply-reflected is e =
      let ping : (pr.type == probe_ping) ≡ true = ground (arith, is) in
      simp ping (apply_ping-reflected (from_src src) e)

module _ (os : Os) (aead : Aead) (k : Sinks) (pr : Probe) (kind : PathKind) (src : Option Sockaddr)
    (agent : Option ℕ) (now : ℕ) (random : Option (List ℕ)) where
  told-Silent :
      (pl pl' : PathPlane) (r : List Effect × PathPlane)
      → r ≡ ([], pl')
      → pl' ≡ record pl { pp = pl'.pp }
      → Silent now pl ((if k.heard then heard_at now ∷ [] else []) ++ r.0, r.1)
  told-Silent pl pl' r e same =
      subst (λ q. Silent now pl ((if k.heard then heard_at now ∷ [] else []) ++ q.0, q.1)) (sym e)
        (told k.heard, same)
    where
      told :
          (heard : Bool)
          → ((if heard then heard_at now ∷ [] else []) ++ [] ≡ [])
            ⊎ ((if heard then heard_at now ∷ [] else []) ++ [] ≡ heard_at now ∷ [])
      told true = inr refl
      told false = inl refl

  open-reflected :
      (pl : PathPlane)
      → pr.type ≡ probe_ping
      → reflected pl.t pr ≡ true
      → Silent now pl (recv_open os aead pl k pr kind src agent now random).1
  unfolding recv_open
  open-reflected pl is e =
      let pl' = record pl { pp = (fresh pl.pp pr).1 } in
      if-keeps Q (not (bytes_eq pr.ufrag k.ident)) (λ _. (inl refl, refl))
        λ _.
          if-keeps Q (not (fresh pl.pp pr).0) (λ _. (inl refl, refl))
            λ _.
              told-Silent pl pl' (plane_apply os aead pl' k pr kind src agent now random)
                (apply-reflected os aead pl' k pr kind src agent now random is e) refl
    where
      Q : Bool × (List Effect × PathPlane) → Type 0
      Q r = Silent now pl r.1

  on-reflected :
      (pl : PathPlane) (opened : Option Probe)
      → opened ≡ some pr
      → pr.type ≡ probe_ping
      → reflected pl.t pr ≡ true
      → Silent now pl (recv_on os aead pl k opened kind src agent now random).1
  unfolding recv_on
  on-reflected pl opened is ping e =
      subst (λ o. Silent now pl (recv_on os aead pl k o kind src agent now random).1) (sym is)
        (open-reflected pl ping e)

  -- A datagram that opens as a ping with the nonce of a question that a path of this end waits on, so
  -- one of its own that came back, is not answered: nothing is sent, no path changes and none is
  -- adopted; nothing but the keys' state moves on, and at most that something was heard is told.
  pub recv-reflected :
      (pl : PathPlane) (wire : List ℕ) (i : ℕ)
      → (plane_open aead pl.pp wire).0 ≡ some pr
      → pr.type ≡ probe_ping
      → nonce_path pl.t pr.nonce ≡ some i
      → let r = (recv os aead pl k wire kind src agent now random).1 in
        ((r.0 ≡ []) ⊎ (r.0 ≡ heard_at now ∷ [])) × (r.1 ≡ record pl { pp = r.1.pp })
  unfolding recv
  recv-reflected pl wire i is ping waits =
      let opened = plane_open aead pl.pp wire in
      on-reflected (record pl { pp = opened.1 }) opened.0 is ping (ground (arith, waits))
