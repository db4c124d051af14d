-- ===== src/Ring/Window.antt =====
-- A ring buffer of Ring.antt is a sliding window: it holds the last elements pushed.
use mathlib.Core.List.{append-nil, append_assoc}
use native.Mathlib.Nat.{mod_self}
use go_ffmpeg_hls_swarm.Common.{
  ℕ, zero, suc, ◌+◌, ◌-◌, ◌%◌, ◌≤◌, ◌<◌, ◌≡◌, refl, ap, ◌∙◌, List, [], ◌∷◌, ◌++◌, false, ltb,
  lt→ltb, get_elem?, some, sym, dec_lt, length, length-append, length-set, set, take, drop, arith,
}
use go_ffmpeg_hls_swarm.Ring.{Ring, push, empty, oldest_first}

wrap : (i size : ℕ) → i + 1 ≡ size → (i + 1) % size ≡ 0
wrap i size h = rw h (mod_self size)

module _ {ℓ} {A : Type ℓ} where
  take-set :
      (xs : List A) (i : ℕ) (a : A)
      → i < length xs
      → take (suc i) (set xs i a) ≡ take i xs ++ a ∷ []
  take-set [] i a h = elim h [ ]
  take-set (x ∷ xs) zero a h = refl
  take-set (x ∷ xs) (suc i) a h = rw (take-set xs i a (omega arith))

  drop-set : (xs : List A) (i : ℕ) (a : A) → drop (suc i) (set xs i a) ≡ drop (suc i) xs
  drop-set [] i a = refl
  drop-set (x ∷ xs) zero a = refl
  drop-set (x ∷ xs) (suc i) a = drop-set xs i a

  drop_cons : (xs : List A) (i : ℕ) → i < length xs → (x : A) × (drop i xs ≡ x ∷ drop (suc i) xs)
  drop_cons [] i h = elim h [ ]
  drop_cons (x ∷ xs) zero h = (x, refl)
  drop_cons (x ∷ xs) (suc i) h = drop_cons xs i (omega arith)

  pub get_elem?-drop :
      (xs : List A) (i : ℕ)
      → i < length xs
      → (x : A) × (get_elem? xs i ≡ some x) × (drop i xs ≡ x ∷ drop (suc i) xs)
  get_elem?-drop [] i h = elim h [ ]
  get_elem?-drop (x ∷ xs) zero h = (x, refl, refl)
  get_elem?-drop (x ∷ xs) (suc i) h = get_elem?-drop xs i (omega arith)

  drop_all : (xs : List A) (n : ℕ) → length xs ≤ n → drop n xs ≡ []
  drop_all [] zero h = refl
  drop_all [] (suc n) h = refl
  drop_all (x ∷ xs) zero h = absurd (omega arith)
  drop_all (x ∷ xs) (suc n) h = drop_all xs n (omega arith)

  set_last : (xs : List A) (i : ℕ) (a : A) → suc i ≡ length xs → set xs i a ≡ take i xs ++ a ∷ []
  set_last [] i a h = absurd (omega arith)
  set_last (x ∷ []) zero a h = refl
  set_last (x ∷ y ∷ xs) zero a h = absurd (omega arith)
  set_last (x ∷ xs) (suc i) a h = rw (set_last xs i a (omega arith))

  -- The ring is within its size, and its index is 0 until it is full.
  pub record IsValid (size : ℕ) (r : Ring A) : Type ℓ where
    pub fits : length r.items ≤ size
    pub in_range : r.write_idx < size
    pub filling : length r.items < size → r.write_idx ≡ 0

  rotate_set :
      (xs : List A) (i : ℕ) (a : A)
      → suc i < length xs
      → drop (suc i) (set xs i a) ++ take (suc i) (set xs i a)
        ≡ drop 1 (drop i xs ++ take i xs) ++ a ∷ []
  rotate_set xs i a h =
      let (x, e) = drop_cons xs i (omega arith) in
      rw (drop-set xs i a, take-set xs i a (omega arith), e)
        (sym (append_assoc (drop (suc i) xs) (take i xs) (a ∷ [])))

  wrap_set :
      (xs : List A) (i : ℕ) (a : A)
      → suc i ≡ length xs
      → set xs i a ++ [] ≡ drop 1 (drop i xs ++ take i xs) ++ a ∷ []
  wrap_set xs i a h =
      let (x, e) = drop_cons xs i (omega arith) in
      rw (e, drop_all xs (suc i) (omega arith), append-nil (set xs i a)) (set_last xs i a h)

  push_filling :
      (size : ℕ) (a : A) (r : Ring A)
      → IsValid size r
      → length r.items < size
      → oldest_first (push size a r) ≡ oldest_first r ++ a ∷ []
  unfolding push oldest_first
  push_filling size a r v h = rw (lt→ltb _ _ h, v.filling h) (simp append-nil)

  push_full :
      (size : ℕ) (a : A) (r : Ring A)
      → IsValid size r
      → size ≤ length r.items
      → oldest_first (push size a r) ≡ drop 1 (oldest_first r) ++ a ∷ []
  unfolding push oldest_first
  push_full size a r v h =
      let full : ltb (length r.items) size ≡ false = ground arith in
      elim (dec_lt (r.write_idx + 1) size) [
        | yes l ↦
            let e : (r.write_idx + 1) % size ≡ suc r.write_idx = grind arith in
            rw (full, e) (rotate_set r.items r.write_idx a (omega arith))
        | no l ↦
            let e : (r.write_idx + 1) % size ≡ 0 = wrap r.write_idx size (omega arith) in
            rw (full, e) (wrap_set r.items r.write_idx a (omega arith))
      ]

  pub push-IsValid : (size : ℕ) (a : A) (r : Ring A) → IsValid size r → IsValid size (push size a r)
  unfolding push
  push-IsValid size a r v =
      ground (arith, length-append r.items (a ∷ []), length-set r.items r.write_idx a)

  drop-drop : (k : ℕ) (xs : List A) → drop 1 (drop k xs) ≡ drop (suc k) xs
  drop-drop zero xs = refl
  drop-drop (suc k) [] = refl
  drop-drop (suc k) (x ∷ xs) = drop-drop k xs

  drop_append : (k : ℕ) (xs ys : List A) → k ≤ length xs → drop k (xs ++ ys) ≡ drop k xs ++ ys
  drop_append zero xs ys h = refl
  drop_append (suc k) [] ys h = elim h [ ]
  drop_append (suc k) (x ∷ xs) ys h = drop_append k xs ys (omega arith)

  -- The last `size` elements of a history.
  abbrev pub window : ℕ → List A → List A
  window size history = drop (length history - size) history

  -- A ring that has seen a history.
  pub record Shows (size : ℕ) (history : List A) (r : Ring A) : Type ℓ where
    pub valid : IsValid size r
    pub filled : (length r.items < size → length r.items ≡ length history)
    pub full : (size ≤ length r.items → size ≤ length history)
    pub shown : oldest_first r ≡ window size history

  length-push_filling :
      (size : ℕ) (a : A) (r : Ring A)
      → length r.items < size
      → length (push size a r).items ≡ length r.items + 1
  unfolding push
  length-push_filling size a r h = ground (arith, length-append r.items (a ∷ []))

  length-push_full :
      (size : ℕ) (a : A) (r : Ring A)
      → size ≤ length r.items
      → length (push size a r).items ≡ length r.items
  unfolding push
  length-push_full size a r h = ground (arith, length-set r.items r.write_idx a)

  window_filling :
      (size : ℕ) (h : List A) (a : A)
      → length h < size
      → window size (h ++ a ∷ []) ≡ window size h ++ a ∷ []
  window_filling size h a l =
      let e : length (h ++ a ∷ []) - size ≡ 0 = omega (arith, length-append h (a ∷ [])) in
      let f : length h - size ≡ 0 = omega arith in rw (e, f) refl

  window_full :
      (size : ℕ) (h : List A) (a : A)
      → 0 < size
      → size ≤ length h
      → window size (h ++ a ∷ []) ≡ drop 1 (window size h) ++ a ∷ []
  window_full size h a z l =
      let e : length (h ++ a ∷ []) - size ≡ suc (length h - size) =
        omega (arith, length-append h (a ∷ [])) in
      rw (e, drop_append (suc (length h - size)) h (a ∷ []) (omega arith))
        (ap (λ xs. xs ++ a ∷ []) (sym (drop-drop (length h - size) h)))

  -- A push moves the window on by one element.
  pub push-Shows :
      (size : ℕ) (history : List A) (a : A) (r : Ring A)
      → Shows size history r
      → Shows size (history ++ a ∷ []) (push size a r)
  push-Shows size history a r v = elim (dec_lt (length r.items) size) [
    | yes l ↦
        let n = length-push_filling size a r l in
        let m = length-append history (a ∷ []) in
        record {
          valid = push-IsValid size a r v.valid;
          filled = λ _. omega (arith, n, m);
          full = λ full. omega (arith, n, m, full);
          shown =
              push_filling size a r v.valid l
              ∙ ap (λ xs. xs ++ a ∷ []) v.shown
              ∙ sym (window_filling size history a (omega arith));
        }
    | no l ↦
        let n = length-push_full size a r (omega arith) in
        let m = length-append history (a ∷ []) in
        record {
          valid = push-IsValid size a r v.valid;
          filled = λ short. absurd (omega (arith, n, short));
          full = λ _. omega (arith, n, m, v.full (omega arith));
          shown =
              push_full size a r v.valid (omega arith)
              ∙ ap (λ xs. drop 1 xs ++ a ∷ []) v.shown
              ∙ sym (window_full size history a (omega arith) (omega arith));
        }
  ]

  pub empty-Shows : (size : ℕ) → 0 < size → Shows size [] empty
  unfolding empty oldest_first
  empty-Shows size h = record {
    valid = omega arith;
    filled = λ _. refl;
    full = λ e. e;
    shown = let e : 0 - size ≡ 0 = omega arith in rw e;
  }

  -- Pushes one after the other.
  abbrev pub push_all : ℕ → List A → Ring A → Ring A
  push_all size [] r = r
  push_all size (a ∷ more) r = push_all size more (push size a r)

  push_all-Shows :
      (size : ℕ) (history more : List A) (r : Ring A)
      → Shows size history r
      → Shows size (history ++ more) (push_all size more r)
  push_all-Shows size history [] r v = rw (append-nil history) v
  push_all-Shows size history (a ∷ more) r v =
      rw (← append_assoc history (a ∷ []) more) (
        push_all-Shows size (history ++ a ∷ []) more (push size a r)
          (push-Shows size history a r v))

  -- Whatever is pushed into an empty ring of a positive size, it holds the last `size` elements,
  -- and from its write index on they stand in the order in which they were pushed.
  pub push_all-window :
      (size : ℕ) (xs : List A)
      → 0 < size
      → oldest_first (push_all size xs empty) ≡ drop (length xs - size) xs
  push_all-window size xs h = (push_all-Shows size [] xs empty (empty-Shows size h)).shown
