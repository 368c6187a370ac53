-- ===== src/PathPlane/Arrive/Answers.antt =====
-- What qualifies a path (src/pathplane.c).
use comrade.Prelude.{
  ℕ, zero, suc, ◌≡◌, refl, sym, ap, Bool, true, false, not, ◌&&◌, ◌||◌, Option, none, some, List,
  [], ◌∷◌, ◌==◌, if◌then◌else◌, arith, set, get_or, bytes_eq, subst, if-keeps,
}
use comrade.Paths.Ep.{Ep, Os, Sockaddr, any, ep_eq}
use comrade.Paths.Types.{NetPath, PathKind, zero_path}
use comrade.Paths.Table.{Table, slot}
use comrade.Paths.Admit.Evict.{first-found}
use comrade.Paths.Observe.{Probe}
use comrade.Seal.{Aead}
use comrade.ProbePlane.{plane_open, fresh}
use comrade.PathPlane.{PathPlane, Sinks, Effect, kind_of}
use comrade.PathPlane.Arrive.{
  has_src, probe_ping, probe_pong_type, is_ice, from_src, nonce_path, adopt, answer, send_sealed,
  apply_ping, pong_at, pong_on, apply_pong, reflected, swallowed, strayed, plane_apply, recv_open,
  recv_on, recv,
}
use comrade.PathPlane.Arrive.Sources.{NoMore, NoMore-trans, adopt-NoMore, answer-NoMore}

-- The path that a nonce names waits for the answer to it.
nonce_path-waits :
    (t : Table) (nonce i : ℕ)
    → nonce_path t nonce ≡ some i
    → ((slot t i).used ≡ true) × ((slot t i).outstanding ≡ true) × ((slot t i).nonce ≡ nonce)
unfolding nonce_path
nonce_path-waits t nonce i e =
    let (j, at, hit) = first-found (λ p. p.used && (p.outstanding && p.nonce == nonce)) 0 t.p i e in
    let same : j ≡ i = omega arith in
    subst
      (λ n. ((slot t n).used ≡ true) × ((slot t n).outstanding ≡ true) × ((slot t n).nonce ≡ nonce))
      same (ground (arith, hit))

-- Whether an answer comes from where its question went; ICE reports no source.
abbrev pub came_back : PathKind → Ep → NetPath → Bool
came_back kind from p = is_ice kind || (any from || ep_eq from p.peer_ep)

-- What a path that a pong qualifies was waiting for.
abbrev pub Answered : Table → ℕ → Probe → PathKind → Ep → Type 0
Answered t i pr kind from =
    (pr.type ≡ probe_pong_type)
    × ((slot t i).outstanding ≡ true)
    × ((slot t i).nonce ≡ pr.nonce)
    × (came_back kind from (slot t i) ≡ true)

-- A slot that was not qualified and is.
abbrev Newly : Table → Table → ℕ → Type 0
Newly t t' i = ((slot t i).qualified ≡ false) × ((slot t' i).qualified ≡ true)

set-other :
    (ps : List NetPath) (i j : ℕ) (v : NetPath)
    → (get_or ps j zero_path).qualified ≡ false
    → (get_or (set ps i v) j zero_path).qualified ≡ true
    → i ≡ j
set-other [] i j v e f = absurd (ground arith)
set-other (p ∷ ps) zero zero v e f = refl
set-other (p ∷ ps) zero (suc j) v e f = absurd (ground arith)
set-other (p ∷ ps) (suc i) zero v e f = absurd (ground arith)
set-other (p ∷ ps) (suc i) (suc j) v e f = ap suc (set-other ps i j v e f)

Newly-NoMore : (t t' : Table) (i : ℕ) → NoMore t t' → Newly t t' i → ⊥
unfolding NoMore
Newly-NoMore t t' i h n = absurd (ground (arith, h i n.1, n.0))

module _ (os : Os) (aead : Aead) (pl : PathPlane) (k : Sinks) (pr : Probe) (kind : PathKind) where
  -- What holds of an outcome of the handlers.
  Fair : Ep → ℕ → List Effect × PathPlane → Type 0
  Fair from i r = Newly pl.t r.1.t i → Answered pl.t i pr kind from

  same : NoMore pl.t pl.t
  unfolding NoMore
  same i h = h

  -- An outcome that qualifies nothing.
  Calm : List Effect × PathPlane → Type 0
  Calm r = NoMore pl.t r.1.t

  calm : (es : List Effect) (pl' : PathPlane) → NoMore pl.t pl'.t → Calm (es, pl')
  unfolding Calm
  calm es pl' h = h

  Calm-send_sealed :
      (q : PathPlane) (rp : Probe) (mine : List ℕ) (agent : Option ℕ) (to : Option Sockaddr)
      (random : Option (List ℕ))
      → NoMore pl.t q.t
      → Calm (send_sealed os aead q rp mine kind agent to random)
  unfolding send_sealed Calm
  Calm-send_sealed q rp mine agent to random h = h

  apply_ping-Calm :
      (from : Ep) (src : Option Sockaddr) (agent : Option ℕ) (now : ℕ) (random : Option (List ℕ))
      → Calm (apply_ping os aead pl k pr kind from src agent now random)
  unfolding apply_ping
  apply_ping-Calm from src agent now random =
      let a = adopt os pl k kind from src agent now in
      let r = answer os pl.pp.base a.1 pr from a.0 in
      let later : NoMore pl.t r.1 =
        NoMore-trans pl.t a.1 r.1 (adopt-NoMore os pl k kind from src agent now)
          (answer-NoMore os pl.pp.base a.1 pr from a.0) in
      if-keeps Calm (reflected pl.t pr) (λ e. calm [] pl same)
        λ e.
          if-keeps Calm (swallowed pl a.1 a.0 (if is_ice kind then kind else kind_of k from) src)
            (λ f. calm [] (record pl { t = r.1 }) later)
            λ f. Calm-send_sealed (record pl { t = r.1 }) r.0 k.ident agent src random later

  fair : (from : Ep) (i : ℕ) (r : List Effect × PathPlane) → Calm r → Fair from i r
  unfolding Fair Calm
  fair from i r h n = absurd (Newly-NoMore pl.t r.1.t i h n)

  moved-Fair :
      (from : Ep) (i j : ℕ) (es : List Effect) (v : NetPath)
      → pr.type ≡ probe_pong_type
      → nonce_path pl.t pr.nonce ≡ some i
      → came_back kind from (slot pl.t i) ≡ true
      → Fair from j (es, record pl { t = record pl.t { p = set pl.t.p i v } })
  unfolding Fair
  moved-Fair from i j es v is found back n =
      let (used, waits, asked) = nonce_path-waits pl.t pr.nonce i found in
      subst (λ m. Answered pl.t m pr kind from) (set-other pl.t.p i j v n.0 n.1)
        (is, waits, asked, back)

  pong_at-Fair :
      (from : Ep) (src : Option Sockaddr) (now i j : ℕ)
      → pr.type ≡ probe_pong_type
      → nonce_path pl.t pr.nonce ≡ some i
      → (has_src src ≡ false → any from ≡ true)
      → Fair from j (pong_at os aead pl k pr kind from src now i)
  unfolding pong_at
  pong_at-Fair from src now i j is found sourced =
      if-keeps (Fair from j) (strayed kind src from (slot pl.t i))
        (λ e. fair from j ([], pl) (calm [] pl same))
        λ e. moved-Fair from i j _ _ is found (ground (arith, e, sourced))

  pong_on-Fair :
      (from : Ep) (src : Option Sockaddr) (now j : ℕ) (at : Option ℕ)
      → pr.type ≡ probe_pong_type
      → nonce_path pl.t pr.nonce ≡ at
      → (has_src src ≡ false → any from ≡ true)
      → Fair from j (pong_on os aead pl k pr kind from src now at)
  unfolding pong_on
  pong_on-Fair from src now j none is found sourced = fair from j ([], pl) (calm [] pl same)
  pong_on-Fair from src now j (some i) is found sourced =
      pong_at-Fair from src now i j is found sourced

  apply_pong-Fair :
      (from : Ep) (src : Option Sockaddr) (now j : ℕ)
      → pr.type ≡ probe_pong_type
      → (has_src src ≡ false → any from ≡ true)
      → Fair from j (apply_pong os aead pl k pr kind from src now)
  unfolding apply_pong
  apply_pong-Fair from src now j is sourced =
      pong_on-Fair from src now j (nonce_path pl.t pr.nonce) is refl sourced

  unsourced : (src : Option Sockaddr) → has_src src ≡ false → any (from_src src) ≡ true
  unfolding any
  unsourced none e = refl
  unsourced (some sa) e = absurd cc

  plane_apply-Fair :
      (src : Option Sockaddr) (agent : Option ℕ) (now : ℕ) (random : Option (List ℕ)) (j : ℕ)
      → Fair (from_src src) j (plane_apply os aead pl k pr kind src agent now random)
  unfolding plane_apply
  plane_apply-Fair src agent now random j =
      if-keeps (Fair (from_src src) j) (pr.type == probe_ping)
        (λ e. fair (from_src src) j _ (apply_ping-Calm (from_src src) src agent now random))
        λ e.
          if-keeps (Fair (from_src src) j) (pr.type == probe_pong_type)
            (λ f. apply_pong-Fair (from_src src) src now j (ground (arith, f)) (unsourced src))
            λ f. fair (from_src src) j _ (calm _ pl same)

-- The probe that qualified a path: it names this end, is new, and answers what the path waited for.
record Proof (pl : PathPlane) (k : Sinks) (pr : Probe) (kind : PathKind) (from : Ep) (i : ℕ)
    : Type 0 where
  names : bytes_eq pr.ufrag k.ident ≡ true
  new : (fresh pl.pp pr).0 ≡ true
  answered : Answered pl.t i pr kind from

module _ (os : Os) (aead : Aead) (k : Sinks) (kind : PathKind) (src : Option Sockaddr) (i : ℕ) where
  Proven : PathPlane → Probe → Bool × (List Effect × PathPlane) → Type 0
  Proven pl pr r = Newly pl.t r.1.1.t i → Proof pl k pr kind (from_src src) i

  unmoved :
      (pl : PathPlane) (pr : Probe) (b : Bool) (es : List Effect) (pl' : PathPlane)
      → pl'.t ≡ pl.t
      → Proven pl pr (b, (es, pl'))
  unfolding Proven
  unmoved pl pr b es pl' e n = absurd (ground (arith, n, ap (λ t. (slot t i).qualified) e))

  applied :
      (pl pl' : PathPlane) (pr : Probe) (b : Bool) (es : List Effect) (r : List Effect × PathPlane)
      → pl'.t ≡ pl.t
      → bytes_eq pr.ufrag k.ident ≡ true
      → (fresh pl.pp pr).0 ≡ true
      → Fair os aead pl' k pr kind (from_src src) i r
      → Proven pl pr (b, (es, r.1))
  unfolding Proven Fair
  applied pl pl' pr b es r same names new h n = record {
    names = names;
    new = new;
    answered =
        subst (λ t. Answered t i pr kind (from_src src)) same
          (h (subst (λ t. Newly t r.1.t i) (sym same) n));
  }

  recv_open-Proven :
      (pl : PathPlane) (pr : Probe) (agent : Option ℕ) (now : ℕ) (random : Option (List ℕ))
      → Proven pl pr (recv_open os aead pl k pr kind src agent now random)
  unfolding recv_open
  recv_open-Proven pl pr agent now random =
      let f = fresh pl.pp pr in
      let pl' = record pl { pp = f.1 } in
      if-keeps (Proven pl pr) (not (bytes_eq pr.ufrag k.ident))
        (λ e. unmoved pl pr false [] pl refl)
        λ e.
          if-keeps (Proven pl pr) (not f.0) (λ g. unmoved pl pr false [] pl' refl)
            λ g.
              applied pl pl' pr true _ (plane_apply os aead pl' k pr kind src agent now random) refl
                (ground (arith, e)) (ground (arith, g))
                (plane_apply-Fair os aead pl' k pr kind src agent now random i)

  recv_on-Proven :
      (pl : PathPlane) (opened : Option Probe) (agent : Option ℕ) (now : ℕ)
      (random : Option (List ℕ))
      → Newly pl.t (recv_on os aead pl k opened kind src agent now random).1.1.t i
      → (pr : Probe) × (opened ≡ some pr) × Proof pl k pr kind (from_src src) i
  unfolding recv_on Proven
  recv_on-Proven pl none agent now random n = absurd (ground (arith, n))
  recv_on-Proven pl (some pr) agent now random n =
      (pr, refl, recv_open-Proven pl pr agent now random n)

  -- A path that a received datagram qualifies: the datagram opened as a pong under a key in force,
  -- names this end, had not been acted on before, carries the very nonce that the path was waiting
  -- for, and came (off ICE, with a source) from the endpoint that the question went to.
  pub recv-qualified :
      (pl : PathPlane) (wire : List ℕ) (agent : Option ℕ) (now : ℕ) (random : Option (List ℕ))
      → (slot pl.t i).qualified ≡ false
      → (slot (recv os aead pl k wire kind src agent now random).1.1.t i).qualified ≡ true
      → (pr : Probe) × ((plane_open aead pl.pp wire).0 ≡ some pr)
        × (bytes_eq pr.ufrag k.ident ≡ true)
        × ((fresh (plane_open aead pl.pp wire).1 pr).0 ≡ true)
        × Answered pl.t i pr kind (from_src src)
  unfolding recv
  recv-qualified pl wire agent now random before after =
      let opened = plane_open aead pl.pp wire in
      let (pr, is, proof) =
        recv_on-Proven (record pl { pp = opened.1 }) opened.0 agent now random (before, after) in
      (pr, is, proof.names, proof.new, proof.answered)
