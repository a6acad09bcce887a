-- ===== src/Queue/FanOut/Ordered.antt =====
-- The order of the sequence numbers of a queue and its consumers: the operations one by one.
use lindb.Base.{
  inr, subst, sym, ap, ◌∙◌, Option-cases, Bool, true, false, ℕ, ◌^◌, ◌≤◌, ◌<◌, ◌≡◌, refl, ◌⊎◌, inl,
  List, [], ◌∷◌, some, All, Map, values, lookup, insert, delete, String, String-Key, arith,
  if◌then◌else◌,
}
use lindb.Base.Words.{lt64}
use lindb.Queue.Store.{Queue}
use lindb.Queue.FanOut.{
  fan_out_at, FanOut, new_fan_out, consume, set_head_seq, acked, least_tail, restore,
}

-- A consumer of a queue whose head is `h` and whose tail is `t`. Its meta file holds zeros, or the
-- acknowledged sequence number and the head of that time.
pub record IsConsumer (h t : ℕ) (fo : FanOut) : Type 0 where
  pub tail_kept : t ≤ fo.tail_seq
  pub tail_below : fo.tail_seq ≤ fo.head_seq
  pub head_below : fo.head_seq ≤ h
  pub saved :
      ((fo.meta_head ≡ 0) × (fo.meta_tail ≡ 0))
      ⊎ ((fo.meta_tail ≡ fo.tail_seq) × (fo.meta_tail ≤ fo.meta_head) × (fo.meta_head ≤ h))

new_fan_out-at :
    (q : Queue) (head tail : ℕ) (fo : FanOut)
    → new_fan_out q head tail ≡ some fo
    → fan_out_at q.tail_seq head tail ≡ fo
unfolding new_fan_out
new_fan_out-at q head tail fo made = ground arith

module _ (h t : ℕ) (small : h < 2 ^ 63) (tail_le : t ≤ h) where
  pub fan_out_at-IsConsumer : IsConsumer h t (fan_out_at t 0 0)
  unfolding fan_out_at
  fan_out_at-IsConsumer = record {
    tail_kept = omega arith;
    tail_below = omega arith;
    head_below = tail_le;
    saved = inl (refl, refl);
  }

  pub restored-IsConsumer :
      (fo : FanOut) → IsConsumer h t fo → IsConsumer h t (fan_out_at t fo.meta_head fo.meta_tail)
  unfolding fan_out_at
  restored-IsConsumer fo c = record {
    tail_kept = ground arith;
    tail_below = ground arith;
    head_below = ground arith;
    saved = ground arith;
  }

  pub consume-IsConsumer : (fo : FanOut) → IsConsumer h t fo → IsConsumer h t (consume h fo).1
  unfolding consume
  consume-IsConsumer fo c = record {
    tail_kept = ground arith;
    tail_below = ground arith;
    head_below = ground arith;
    saved = ground arith;
  }

  pub set_head_seq-IsConsumer :
      (seq : ℕ) (fo fo' : FanOut)
      → seq < 2 ^ 64
      → IsConsumer h t fo
      → set_head_seq h seq fo ≡ some fo'
      → IsConsumer h t fo'
  unfolding set_head_seq
  set_head_seq-IsConsumer seq fo fo' word c e = record {
    tail_kept = ground arith;
    tail_below = ground arith;
    head_below = ground arith;
    saved = ground arith;
  }

  pub acked-IsConsumer :
      (seq : ℕ) (fo fo' : FanOut)
      → seq < 2 ^ 64
      → IsConsumer h t fo
      → acked seq fo ≡ some fo'
      → IsConsumer h t fo'
  unfolding acked
  acked-IsConsumer seq fo fo' word c e = record {
    tail_kept = ground arith;
    tail_below = ground arith;
    head_below = ground arith;
    saved = ground arith;
  }

  pub new_fan_out-IsConsumer :
      (q : Queue) (fo : FanOut) → q.tail_seq ≡ t → new_fan_out q 0 0 ≡ some fo → IsConsumer h t fo
  new_fan_out-IsConsumer q fo tail made =
      subst (IsConsumer h t) (ap (λ t. fan_out_at t 0 0) (sym tail) ∙ new_fan_out-at q 0 0 fo made)
        fan_out_at-IsConsumer

  pub restore-All :
      (q : Queue) (m m' : Map String FanOut)
      → q.tail_seq ≡ t
      → restore q m ≡ some m'
      → All (IsConsumer h t) (values m)
      → All (IsConsumer h t) (values m')
  unfolding restore
  restore-All q [] m' tail e all =
      let nothing : [] ≡ m' = ground arith in
      subst (λ m. All (IsConsumer h t) (values m)) nothing tt
  restore-All q ((name, fo) ∷ m) m' tail e all =
      elim (Option-cases (new_fan_out q fo.meta_head fo.meta_tail)) [
        | inl failed ↦ absurd (ground arith)
        | inr (fo₁, made) ↦ elim (Option-cases (restore q m)) [
          | inl failed ↦ absurd (ground arith)
          | inr (m₁, rest) ↦
              let both : (name, fo₁) ∷ m₁ ≡ m' = ground arith in
              let same =
                ap (λ t. fan_out_at t fo.meta_head fo.meta_tail) (sym tail)
                ∙ new_fan_out-at q fo.meta_head fo.meta_tail fo₁ made in
              subst (λ m. All (IsConsumer h t) (values m)) both
                (
                  subst (IsConsumer h t) same (restored-IsConsumer fo all.0),
                  restore-All q m m₁ tail rest all.1,
                )
        ]
      ]

-- The head of the queue goes up.
pub raised-IsConsumer :
    (h h' t : ℕ) → h ≤ h' → (fo : FanOut) → IsConsumer h t fo → IsConsumer h' t fo
raised-IsConsumer h h' t up fo c = record {
  tail_kept = c.tail_kept;
  tail_below = c.tail_below;
  head_below = omega arith;
  saved = ground arith;
}

module _ (P : FanOut → Type 0) where
  All-delete :
      (name : String) (m : Map String FanOut) → All P (values m) → All P (values (delete name m))
  unfolding delete
  All-delete name [] all = all
  All-delete name ((n, fo) ∷ m) all = ground (arith, All-delete name m all.1)

  pub All-insert :
      (name : String) (fo : FanOut) (m : Map String FanOut)
      → P fo
      → All P (values m)
      → All P (values (insert name fo m))
  unfolding insert
  All-insert name fo m p all = (p, All-delete name m all)

  pub All-lookup :
      (name : String) (fo : FanOut) (m : Map String FanOut)
      → All P (values m)
      → lookup name m ≡ some fo
      → P fo
  unfolding lookup
  All-lookup name fo [] all e = ground arith
  All-lookup name fo ((n, fo') ∷ m) all e = ground (arith, All-lookup name fo m all.1)

pub All-weaken :
    {P Q : FanOut → Type 0}
    → ((fo : FanOut) → P fo → Q fo)
    → (fos : List FanOut) → All P fos
    → All Q fos
All-weaken f [] all = all
All-weaken f (fo ∷ fos) all = (f fo all.0, All-weaken f fos all.1)

-- A number that is at most `a` and the tail of each consumer.
abbrev pub IsLeast : ℕ → List FanOut → ℕ → Type 0
IsLeast a fos n = (n ≤ a) × All (λ fo. n ≤ fo.tail_seq) fos

choose :
    (P : ℕ → Type 0) (b : Bool) (x y : ℕ)
    → (b ≡ true → P x)
    → (b ≡ false → P y)
    → P (if b then x else y)
choose P true x y hit miss = hit refl
choose P false x y hit miss = miss refl

-- `Sync` takes a number that no consumer's tail is below.
pub least_tail_lem :
    (h t a : ℕ) (fos : List FanOut)
    → h < 2 ^ 63
    → a ≤ h
    → All (IsConsumer h t) fos
    → IsLeast a fos (least_tail a fos)
unfolding least_tail
least_tail_lem h t a [] small le all = (omega arith, tt)
least_tail_lem h t a (fo ∷ fos) small le all =
    let tail_le : fo.tail_seq ≤ h = (let c = all.0 in omega arith) in
    choose (IsLeast a (fo ∷ fos)) (lt64 fo.tail_seq a) _ _
      (λ e. less e (least_tail_lem h t fo.tail_seq fos small tail_le all.1))
      (λ e. more e (least_tail_lem h t a fos small le all.1))
  where
    less :
        lt64 fo.tail_seq a ≡ true
        → IsLeast fo.tail_seq fos (least_tail fo.tail_seq fos)
        → IsLeast a (fo ∷ fos) (least_tail fo.tail_seq fos)
    less e l = let c = all.0 in (ground (arith, l.0), (l.0, l.1))

    more :
        lt64 fo.tail_seq a ≡ false
        → IsLeast a fos (least_tail a fos)
        → IsLeast a (fo ∷ fos) (least_tail a fos)
    more e l = let c = all.0 in (l.0, (ground (arith, l.0), l.1))

-- The tail of the queue goes up to such a number.
pub raised-All :
    (h t t' n : ℕ) (fos : List FanOut)
    → ((t' ≡ t) ⊎ (t' ≡ n))
    → All (IsConsumer h t) fos
    → All (λ fo. n ≤ fo.tail_seq) fos
    → All (IsConsumer h t') fos
raised-All h t t' n [] to all least = all
raised-All h t t' n (fo ∷ fos) to all least = (one all.0, raised-All h t t' n fos to all.1 least.1)
  where
    one : IsConsumer h t fo → IsConsumer h t' fo
    one c = record {
      tail_kept = (let l = least.0 in ground arith);
      tail_below = c.tail_below;
      head_below = c.head_below;
      saved = c.saved;
    }
