-- ===== src/AntiReplay/Live.antt =====
-- Entries of src/anti_replay.rs by age.
use native.Mathlib.Nat.{zero-sub}
use null_path.AntiReplay.Invariant.{drop_old, tail, cut}
use null_path.AntiReplay.{Key}
use null_path.Base.{
  ℕ, zero, suc, ◌-◌, ◌≤◌, ◌<◌, ◌≡◌, refl, ap, sym, ◌∙◌, List, [], ◌∷◌, ◌++◌, arith, length, drop,
  ltb, leb, leb→le, Bool-cases, inl, inr, if◌then◌else◌, length-append, length-drop, drop_all,
  ltb→le,
}

-- the entries not older than the window
unfoldable pub live : ℕ → ℕ → List (Key × ℕ) → List (Key × ℕ)
live now window [] = []
live now window ((k, t) ∷ q) =
    if ltb window (now - t) then live now window q else (k, t) ∷ live now window q

-- the last `n` elements
unfoldable pub last_n {ℓ} : {A : Type ℓ} → ℕ → List A → List A
last_n n xs = drop (length xs - n) xs

-- the time stamps do not fall, from `lo` on
abbrev pub Rises : ℕ → List (Key × ℕ) → Type 0
Rises lo [] = Unit
Rises lo ((k, t) ∷ q) = (lo ≤ t) × Rises t q

live_all :
    (now window lo : ℕ) (q : List (Key × ℕ))
    → Rises lo q
    → now - lo ≤ window
    → live now window q ≡ q
unfolding live
live_all now window lo [] r h = refl
live_all now window lo ((k, t) ∷ q) r h = ground (arith, live_all now window t q)

drop_old-live :
    (now window lo : ℕ) (q : List (Key × ℕ))
    → Rises lo q
    → drop_old now window q ≡ live now window q
unfolding live drop_old
drop_old-live now window lo [] r = refl
drop_old-live now window lo ((k, t) ∷ q) r =
    ground (arith, drop_old-live now window t q, live_all now window t q)

length-live-le : (now window : ℕ) (q : List (Key × ℕ)) → length (live now window q) ≤ length q
unfolding live
length-live-le now window [] = omega arith
length-live-le now window ((k, t) ∷ q) = ground (arith, length-live-le now window q)

-- `live` forgets a run at the head, and so commutes with `drop`
live-drop :
    (now window lo n : ℕ) (q : List (Key × ℕ))
    → Rises lo q
    → live now window (drop n q)
      ≡ drop (n - (length q - length (live now window q))) (live now window q)
unfolding live drop
live-drop now window lo zero [] r = refl
live-drop now window lo (suc n) [] r = sym (drop_all (suc n - 0) [] (omega arith))
live-drop now window lo zero ((k, t) ∷ q) r = rw zero-sub
live-drop now window lo (suc n) ((k, t) ∷ q) r = elim (Bool-cases (ltb window (now - t))) [
  | inl old ↦ rw old (
      live-drop now window t n q r.1
      ∙ ap (λ m. drop m (live now window q)) (omega (arith, length-live-le now window q)))
  | inr young ↦
      let whole = live_all now window t q r.1 (ltb→le window (now - t) young) in
      rw (young, whole)
        (live-drop now window t n q r.1
          ∙ ap (λ qs. drop (n - (length q - length qs)) qs) whole
          ∙ ap (λ m. drop m q) (omega arith)
          ∙ ap (λ m. drop m ((k, t) ∷ q)) {x = suc n} (omega arith))
]

live-live :
    (now now' window : ℕ) (q : List (Key × ℕ))
    → now ≤ now'
    → live now' window (live now window q) ≡ live now' window q
unfolding live
live-live now now' window [] h = refl
live-live now now' window ((k, t) ∷ q) h = ground (arith, live-live now now' window q)

pub live-append :
    (now window : ℕ) (q r : List (Key × ℕ))
    → live now window (q ++ r) ≡ live now window q ++ live now window r
unfolding live
live-append now window [] r = refl
live-append now window ((k, t) ∷ q) r = ground (arith, live-append now window q r)

Rises-weaken : (lo lo' : ℕ) (q : List (Key × ℕ)) → lo' ≤ lo → Rises lo q → Rises lo' q
Rises-weaken lo lo' [] h r = tt
Rises-weaken lo lo' ((k, t) ∷ q) h r = (omega arith, r.1)

pub live-Rises :
    (now window lo : ℕ) (q : List (Key × ℕ)) → Rises lo q → Rises lo (live now window q)
unfolding live
live-Rises now window lo [] r = tt
live-Rises now window lo ((k, t) ∷ q) r =
    ground (arith, live-Rises now window t q, Rises-weaken t lo (live now window q))

drop-Rises : (n lo : ℕ) (q : List (Key × ℕ)) → Rises lo q → Rises lo (drop n q)
unfolding drop
drop-Rises zero lo q r = r
drop-Rises (suc n) lo [] r = tt
drop-Rises (suc n) lo ((k, t) ∷ q) r = Rises-weaken t lo (drop n q) r.0 (drop-Rises n t q r.1)

-- no time stamp is later than `now`
abbrev pub IsPast : ℕ → List (Key × ℕ) → Type 0
IsPast now [] = Unit
IsPast now ((k, t) ∷ q) = (t ≤ now) × IsPast now q

pub IsPast-weaken : (now now' : ℕ) (q : List (Key × ℕ)) → now ≤ now' → IsPast now q → IsPast now' q
IsPast-weaken now now' [] h p = tt
IsPast-weaken now now' ((k, t) ∷ q) h p = (omega arith, IsPast-weaken now now' q h p.1)

pub Rises-snoc :
    (now lo : ℕ) (k : Key) (q : List (Key × ℕ))
    → lo ≤ now
    → IsPast now q
    → Rises lo q
    → Rises lo (q ++ (k, now) ∷ []) × IsPast now (q ++ (k, now) ∷ [])
Rises-snoc now lo k [] h p r = omega arith
Rises-snoc now lo k ((j, t) ∷ q) h p r =
    let (rises, past) = Rises-snoc now t k q p.0 p.1 r.1 in ((r.0, rises), (p.0, past))

tail-drop : (n : ℕ) (q : List (Key × ℕ)) → tail (drop n q) ≡ drop (suc n) q
unfolding tail drop
tail-drop zero [] = refl
tail-drop (suc n) [] = refl
tail-drop zero (x ∷ q) = refl
tail-drop (suc n) (x ∷ q) = tail-drop n q

drop-snoc :
    (n : ℕ) (q : List (Key × ℕ)) (x : Key × ℕ)
    → n ≤ length q
    → drop n q ++ x ∷ [] ≡ drop n (q ++ x ∷ [])
unfolding drop
drop-snoc zero q x h = refl
drop-snoc (suc n) [] x h = absurd (omega arith)
drop-snoc (suc n) (y ∷ q) x h = drop-snoc n q x (omega arith)

-- one step of the bounded store, on the unbounded history
pub cut-last_n :
    (cap : ℕ) (q : List (Key × ℕ)) (x : Key × ℕ)
    → 0 < cap
    → cut cap (last_n cap q) ++ x ∷ [] ≡ last_n cap (q ++ x ∷ [])
unfolding cut last_n
cut-last_n cap q x h =
    let size = length-drop (length q - cap) q in
    let grown = length-append q (x ∷ []) in
    elim (Bool-cases (leb cap (length (drop (length q - cap) q)))) [
      | inl full ↦
          let enough = leb→le cap (length (drop (length q - cap) q)) full in
          rw (full, tail-drop)
            (drop-snoc (suc (length q - cap)) q x (omega arith)
              ∙ ap (λ n. drop n (q ++ x ∷ [])) (omega arith))
      | inr spare ↦ rw spare (
          drop-snoc (length q - cap) q x (omega arith)
          ∙ ap (λ n. drop n (q ++ x ∷ [])) (ground arith))
    ]

-- the store forgets what the ideal store would forget at the later time
pub drop_old-last_n :
    (cap window now now' : ℕ) (h : List (Key × ℕ))
    → now ≤ now'
    → Rises 0 h
    → drop_old now' window (last_n cap (live now window h)) ≡ last_n cap (live now' window h)
unfolding last_n
drop_old-last_n cap window now now' h later r =
    let l = live now window h in
    let rises = live-Rises now window 0 h r in
    drop_old-live now' window 0 (drop (length l - cap) l) (drop-Rises (length l - cap) 0 l rises)
    ∙ live-drop now' window 0 (length l - cap) l rises
    ∙ ap (λ n. drop n (live now' window l)) (omega (arith, length-live-le now' window l))
    ∙ ap (λ m. drop (length m - cap) m) (live-live now now' window h later)
