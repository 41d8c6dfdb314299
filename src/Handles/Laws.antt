-- ===== src/Handles/Laws.antt =====
-- What releasing a row of handles closes.
use boring.Prelude.{
  ℕ, zero, suc, ◌<◌, ◌≡◌, refl, ap, sym, ◌∙◌, arith, Bool-cases, inl, inr, List, [], ◌∷◌, ◌++◌,
  none, some, length, if◌then◌else◌,
}
use mathlib.Core.List.{append-nil, append_assoc}
use boring.Outcome.{ok, fault, null_pointer}
use boring.Handles.{Kernel, is_valid, close, close_threads, make_threads}

-- The handles that stand for something.
unfoldable pub valid : List ℕ → List ℕ
valid [] = []
valid (h ∷ hs) = if is_valid h then h ∷ valid hs else valid hs

pub valid-append : (hs ks : List ℕ) → valid (hs ++ ks) ≡ valid hs ++ valid ks
unfolding valid
valid-append [] ks = refl
valid-append (h ∷ hs) ks = elim (Bool-cases (is_valid h)) [
  | inl e ↦ rw (e, valid-append hs ks) refl
  | inr e ↦ rw (e, valid-append hs ks) refl
]

pub close-valid : (h : ℕ) (closed : List ℕ) → close h closed ≡ closed ++ valid (h ∷ [])
unfolding close valid
close-valid h closed = elim (Bool-cases (is_valid h)) [
  | inl e ↦ rw e refl
  | inr e ↦ rw e (sym (append-nil closed))
]

pub length-make_threads : (w : Kernel) (n c : ℕ) → length (make_threads w n c) ≡ n
unfolding make_threads
length-make_threads w zero c = refl
length-make_threads w (suc n) c = ap suc (length-make_threads w n (suc c))

pub close_threads_all :
    (hs closed : List ℕ) → close_threads (length hs) (some hs) closed ≡ ok (closed ++ valid hs)
unfolding close_threads valid
close_threads_all [] closed = rw (append-nil closed) refl
close_threads_all (h ∷ hs) closed =
    close_threads_all hs (close h closed)
    ∙ ap (λ l. ok (l ++ valid hs)) (close-valid h closed)
    ∙ ap ok (
        append_assoc closed (valid (h ∷ [])) (valid hs)
        ∙ ap (◌++◌ closed) (sym (valid-append (h ∷ []) hs)))

pub close_threads_made :
    (w : Kernel) (n c : ℕ) (closed : List ℕ)
    → close_threads n (some (make_threads w n c)) closed ≡ ok (closed ++ valid (make_threads w n c))
close_threads_made w n c closed =
    ap (λ k. close_threads k (some (make_threads w n c)) closed) (sym (length-make_threads w n c))
    ∙ close_threads_all (make_threads w n c) closed

-- One handle, a row of threads and another handle.
pub close_around :
    (a b : ℕ) (hs closed : List ℕ)
    → close b (close a closed ++ valid hs) ≡ closed ++ valid (a ∷ (hs ++ b ∷ []))
close_around a b hs closed =
    close-valid b (close a closed ++ valid hs)
    ∙ rw (valid-append (a ∷ []) (hs ++ b ∷ []), valid-append hs (b ∷ []), close-valid a closed)
        (simp (append_assoc))

pub close_threads-none :
    (n : ℕ) (closed : List ℕ) → 0 < n → close_threads n none closed ≡ fault null_pointer
unfolding close_threads
close_threads-none zero closed h = absurd (omega arith)
close_threads-none (suc n) closed h = refl
