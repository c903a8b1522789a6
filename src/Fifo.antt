-- ===== src/Fifo.antt =====
-- The queue between an interrupt handler and a thread, as app/src/usb.c uses it: Zephyr's `k_fifo`
-- keeps the order of what is put in.
use zephyr_development.Prelude.{◌≡◌, refl, ap, Option, none, some, List, [], ◌∷◌, ◌++◌}

-- `items` is what waits, the oldest first. `k_fifo_get` with K_FOREVER waits where it is none here.
pub record Fifo (A : Type 0) : Type 1 where
  pub Queue : Type 0
  pub items : Queue → List A
  pub k_fifo_put : A → Queue → Queue
  pub k_fifo_get : Queue → Option (A × Queue)
  pub items-put : (a : A) (q : Queue) → items (k_fifo_put a q) ≡ items q ++ a ∷ []
  pub get_empty : (q : Queue) → items q ≡ [] → k_fifo_get q ≡ none
  pub get_first :
      (q : Queue) (a : A) (rest : List A)
      → items q ≡ a ∷ rest
      → (q' : Queue) × (k_fifo_get q ≡ some (a, q')) × (items q' ≡ rest)

abbrev pub uncons : {A : Type 0} → List A → Option (A × List A)
uncons [] = none
uncons (a ∷ q) = some (a, q)

-- A queue as a list.
abbrev pub list_fifo : (A : Type 0) → Fifo A
list_fifo A = record {
  Queue = List A;
  items = λ q. q;
  k_fifo_put = λ a q. q ++ a ∷ [];
  k_fifo_get = uncons;
  items-put = λ a q. refl;
  get_empty = λ q e. ap uncons e;
  get_first = λ q a rest e. (rest, ap uncons e, refl);
}
