-- ===== src/Db/Fresh.antt =====
-- Ids that are not used yet, and what that gives: the writes of lumo/db/repo.py return.
use lumo.Base.{
  if◌then◌else◌, Result, err, bind_result, subst, ◌>>=◌, not, ◌||◌, ℕ, ◌+◌, ◌≤◌, ◌≡◌, refl, sym, ap,
  ◌∙◌, Bool, true, false, List, [], ◌∷◌, ◌++◌, String, ◌==◌, eq_iff, any, All, Action, ok,
  Bool-cases, inl, inr, arith,
}
use lumo.Monitor.{Event, Subscriber, Value, notify, publish}
use lumo.Db.Rows.{Tables, insert_event}
use lumo.Db.Repo.{Repo, emit}

-- no row has the id
abbrev pub free : String → Tables → Bool
free id db = not (
    any (λ q. q.id == id) db.decisions
    || any (λ q. q.id == id) db.intents
    || any (λ q. q.id == id) db.events)

abbrev pub Quiet : {E : Type 0} → Subscriber E → Type 0
Quiet {E} f = (event : Event) (env : E) → (f event env).0 ≡ ok tt

-- The ids to come differ and are in no row, and no subscriber raises.
pub record Fresh {E : Type 0} (s : Repo E) : Type 0 where
  pub distinct : (i j : ℕ) → s.ids i ≡ s.ids j → i ≡ j
  pub decisions : (k : ℕ) → s.minted ≤ k → any (λ q. q.id == s.ids k) s.db.decisions ≡ false
  pub intents : (k : ℕ) → s.minted ≤ k → any (λ q. q.id == s.ids k) s.db.intents ≡ false
  pub events : (k : ℕ) → s.minted ≤ k → any (λ q. q.id == s.ids k) s.db.events ≡ false
  pub quiet : All Quiet s.bus.subscribers

pub any-append :
    {A : Type 0} (p : A → Bool) (rs : List A) (r : A)
    → any p rs ≡ false
    → p r ≡ false
    → any p (rs ++ r ∷ []) ≡ false
any-append p [] r h k = ground arith
any-append p (x ∷ rs) r h k = ground (arith, any-append p rs r)

notify-returns :
    {E : Type 0} (fs : List (Subscriber E)) (e : Event) (env : E)
    → All Quiet fs
    → (notify fs e env).0 ≡ ok tt
unfolding notify
notify-returns [] e env q = refl
notify-returns (f ∷ fs) e env (q, qs) = rw (notify, q e env) (notify-returns fs e (f e env).1 qs)

if_true : {A : Type 0} (b : Bool) (x y : A) → b ≡ true → (if b then x else y) ≡ x
if_true true x y h = refl
if_true false x y h = cc

if_false : {A : Type 0} (b : Bool) (x y : A) → b ≡ false → (if b then x else y) ≡ y
if_false true x y h = cc
if_false false x y h = refl

later : (m k : ℕ) → m + 1 ≤ k → m ≤ k
later m k h = omega arith

module _ {E : Type 0} where
  -- another id, and not the next
  pub next_differs :
      (s : Repo E) (k : ℕ) → Fresh s → s.minted + 1 ≤ k → (s.ids s.minted == s.ids k) ≡ false
  next_differs s k f h = elim (Bool-cases (s.ids s.minted == s.ids k)) [
    | inl hit ↦
        (let e : s.minted ≡ k = f.distinct s.minted k ((eq_iff (s.ids s.minted) (s.ids k)).0 hit) in
          absurd (omega arith))
    | inr miss ↦ miss
  ]

  -- The tables but `events`, as they were; the ids go on.
  pub record Frame (s t : Repo E) : Type 0 where
    pub suppliers : t.db.suppliers ≡ s.db.suppliers
    pub intents : t.db.intents ≡ s.db.intents
    pub rules : t.db.policy_rules ≡ s.db.policy_rules
    pub txs : t.db.chain_txs ≡ s.db.chain_txs
    pub payouts : t.db.anchor_payouts ≡ s.db.anchor_payouts
    pub ids : t.ids ≡ s.ids
    pub minted : s.minted ≤ t.minted
    pub fresh : Fresh t

  -- the state after an event that is published
  abbrev emitted : String → List (String × Value) → Repo E → Repo E
  emitted name p s = record s {
    minted = s.minted + 1;
    db = record s.db {
      events = s.db.events ++ record { id = s.ids s.minted; name = name; payload = p } ∷ [];
    };
    bus = (publish (record { name = name; payload = p }) s.bus).1;
  }

  publish-returns :
      (e : Event) (s : Repo E)
      → Fresh s
      → ((publish e s.bus).0 ≡ ok tt) × ((publish e s.bus).1.subscribers ≡ s.bus.subscribers)
  unfolding publish
  publish-returns e s f =
      let told = notify-returns s.bus.subscribers e s.bus.env f.quiet in
      elim (Bool-cases s.bus.enabled) [
        | inl on_ ↦ rw on_ (told, refl)
        | inr off ↦ rw off (refl, refl)
      ]

  emit-emitted :
      (name : String) (p : List (String × Value)) (s : Repo E)
      → Fresh s
      → s.bus.enabled ≡ true
      → emit name p s ≡ (ok tt, emitted name p s)
  unfolding emit insert_event
  emit-emitted name p s f on_ =
      if_true s.bus.enabled _ _ on_
      ∙ rw (f.events s.minted (omega arith)) (
          ap (λ r. (r, emitted name p s))
            (publish-returns (record { name = name; payload = p }) s f).0)

  emitted-Frame :
      (name : String) (p : List (String × Value)) (s : Repo E)
      → Fresh s
      → Frame s (emitted name p s)
  emitted-Frame name p s f = record {
    suppliers = refl;
    intents = refl;
    rules = refl;
    txs = refl;
    payouts = refl;
    ids = refl;
    minted = omega arith;
    fresh = record {
      distinct = f.distinct;
      decisions = λ k h. f.decisions k (later s.minted k h);
      intents = λ k h. f.intents k (later s.minted k h);
      events = λ k h.
          any-append (λ q. q.id == s.ids k) s.db.events
            (record { id = s.ids s.minted; name = name; payload = p })
            (f.events k (later s.minted k h)) (next_differs s k f h);
      quiet = rw (publish-returns (record { name = name; payload = p }) s f).1 f.quiet;
    };
  }

  Frame-refl : (s : Repo E) → Fresh s → Frame s s
  Frame-refl s f = record {
    suppliers = refl;
    intents = refl;
    rules = refl;
    txs = refl;
    payouts = refl;
    ids = refl;
    minted = omega arith;
    fresh = f;
  }

  Frame-trans : (s t u : Repo E) → Frame s t → Frame t u → Frame s u
  Frame-trans s t u f g = record {
    suppliers = g.suppliers ∙ f.suppliers;
    intents = g.intents ∙ f.intents;
    rules = g.rules ∙ f.rules;
    txs = g.txs ∙ f.txs;
    payouts = g.payouts ∙ f.payouts;
    ids = g.ids ∙ f.ids;
    minted = omega (arith, f.minted, g.minted);
    fresh = g.fresh;
  }

  -- The call returns a value, and leaves the suppliers, the intents and the ids to come.
  pub record Lives {A : Type 0} (m : Action (Repo E) A) (s : Repo E) (a : A) : Type 0 where
    pub returns : (m s).0 ≡ ok a
    pub frame : Frame s (m s).1

  pub Lives-result : {A : Type 0} (s : Repo E) (a : A) → Fresh s → Lives (λ t. (ok a, t)) s a
  Lives-result s a f = record { returns = refl; frame = Frame-refl s f }

  chained :
      {A B : Type 0} (c : Result A × Repo E) (f : A → Action (Repo E) B) (s : Repo E) (a : A)
      (b : B)
      → c.0 ≡ ok a
      → Frame s c.1
      → (f a c.1).0 ≡ ok b
      → Frame c.1 (f a c.1).1
      → ((bind_result c.0 c.1 f).0 ≡ ok b) × Frame s (bind_result c.0 c.1 f).1
  chained (ok x, t) f s a b e fr v l =
      let same : a ≡ x = ground arith in
      subst (λ y. ((f y t).0 ≡ ok b) × Frame s (f y t).1) same (v, Frame-trans s t (f a t).1 fr l)
  chained (err x, t) f s a b e fr v l = absurd (ground arith)

  pub Lives-bind :
      {A B : Type 0} (m : Action (Repo E) A) (f : A → Action (Repo E) B) (s : Repo E) (a : A)
      (b : B)
      → Lives m s a
      → Lives (f a) (m s).1 b
      → Lives (m >>= f) s b
  Lives-bind m f s a b l k =
      let (v, fr) = chained (m s) f s a b l.returns l.frame k.returns k.frame in
      record { returns = v; frame = fr }

  -- It depends on what the call does in that state.
  pub Lives-same :
      {A : Type 0} (m n : Action (Repo E) A) (s : Repo E) (a : A)
      → m s ≡ n s
      → Lives n s a
      → Lives m s a
  Lives-same m n s a e l = record {
    returns = ap (λ c. c.0) e ∙ l.returns;
    frame = subst (λ c. Frame s c.1) (sym e) l.frame;
  }

  pub Lives-if :
      {A : Type 0} (b : Bool) (m n : Action (Repo E) A) (s : Repo E) (a : A)
      → Lives m s a
      → Lives n s a
      → Lives (if b then m else n) s a
  Lives-if true m n s a l k = l
  Lives-if false m n s a l k = k

  emit-silent :
      (name : String) (p : List (String × Value)) (s : Repo E)
      → s.bus.enabled ≡ false
      → emit name p s ≡ (ok tt, s)
  unfolding emit
  emit-silent name p s off = if_false s.bus.enabled _ _ off

  pub emit-Lives :
      (name : String) (p : List (String × Value)) (s : Repo E) → Fresh s → Lives (emit name p) s tt
  emit-Lives name p s f = elim (Bool-cases s.bus.enabled) [
    | inl on_ ↦ record {
      returns = ap (λ c. c.0) (emit-emitted name p s f on_);
      frame =
          subst (λ c. Frame s c.1) (sym (emit-emitted name p s f on_)) (emitted-Frame name p s f);
    }
    | inr off ↦
        Lives-same (emit name p) (λ t. (ok tt, t)) s tt (emit-silent name p s off)
          (Lives-result s tt f)
  ]
