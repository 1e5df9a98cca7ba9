-- ===== src/Logging/Log/Writers.antt =====
-- addWriter, removeWriter and multicast (core/tachyon.logging/Log.cc).
use tachyon.Base.{
  ℕ, suc, ◌≡◌, refl, sym, ap, ◌≢◌, ◌⊎◌, inl, inr, Bool, true, false, ◌||◌, List, [], ◌∷◌, map,
  arith, ◌==◌, if◌then◌else◌, ==_iff, Bool-cases, length,
}
use tachyon.Logging.Log.{add_writer, remove_writer, multicast}

-- The writers that are registered, in order.
unfoldable pub registered : List ℕ → List ℕ
registered [] = []
registered (w ∷ ws) = if w == 0 then registered ws else w ∷ registered ws

unfoldable pub holds : ℕ → List ℕ → Bool
holds w [] = false
holds w (v ∷ vs) = (v == w) || holds w vs

multicast_lem : (str ws : List ℕ) → multicast str ws ≡ map (λ w. (w, str)) (registered ws)
unfolding multicast registered
multicast_lem str [] = refl
multicast_lem str (w ∷ ws) = elim (Bool-cases (w == 0)) [
  | inl h ↦ rw h (multicast_lem str ws)
  | inr h ↦ rw h (ap (◌∷◌ (w, str)) (multicast_lem str ws))
]

-- A writer that is added to a table with room is called by multicast; removing it restores the
-- table, and adding to a full table changes nothing.
pub remove_writer-add_writer :
    (writer : ℕ) (ws : List ℕ)
    → writer ≢ 0
    → holds writer ws ≡ false
    → ((holds 0 ws ≡ true)
        × (holds writer (registered (add_writer writer ws)) ≡ true)
        × (remove_writer writer (add_writer writer ws) ≡ ws))
      ⊎ ((holds 0 ws ≡ false) × (add_writer writer ws ≡ ws))
unfolding add_writer remove_writer holds registered
remove_writer-add_writer writer [] some_writer new = inr (refl, refl)
remove_writer-add_writer writer (w ∷ ws) some_writer new = elim (Bool-cases (w == 0)) [
  | inl h ↦
      let zero_here : w ≡ 0 = (==_iff w 0).0 h in
      let itself : (writer == writer) ≡ true = ground arith in
      let not_zero : (writer == 0) ≡ false = ground arith in
      inl (rw h, rw (h, not_zero, itself), rw (h, itself) (ap (λ (t : ℕ). t ∷ ws) (sym zero_here)))
  | inr h ↦
      let other : (w == writer) ≡ false = ground arith in
      let elsewhere : holds writer ws ≡ false = ground arith in
      elim (remove_writer-add_writer writer ws some_writer elsewhere) [
        | inl (room, called, back) ↦
            inl (rw (h, room), rw (h, h, called, other), rw (h, other) (ap (◌∷◌ w) back))
        | inr (full, same_table) ↦ inr (rw (h, full), rw h (ap (◌∷◌ w) same_table))
      ]
]

length-multicast-remove_writer :
    (str : List ℕ) (writer : ℕ) (ws : List ℕ)
    → writer ≢ 0
    → holds writer ws ≡ true
    → suc (length (multicast str (remove_writer writer ws))) ≡ length (multicast str ws)
unfolding multicast remove_writer holds
length-multicast-remove_writer str writer [] some_writer h = absurd (ground arith)
length-multicast-remove_writer str writer (v ∷ vs) some_writer h = elim (Bool-cases (v == writer)) [
  | inl e ↦ let not_zero : (v == 0) ≡ false = ground arith in rw (e, not_zero)
  | inr e ↦
      let inside : holds writer vs ≡ true = ground arith in
      let fewer = length-multicast-remove_writer str writer vs some_writer inside in
      elim (Bool-cases (v == 0)) [ inl z ↦ rw (e, z) fewer | inr z ↦ rw (e, z) (ap suc fewer) ]
]

-- multicast calls each registered writer once, in the order of the table, and after removeWriter of
-- a registered writer it calls one writer fewer.
pub multicast-remove_writer :
    (str : List ℕ) (writer : ℕ) (ws : List ℕ)
    → writer ≢ 0
    → holds writer ws ≡ true
    → (multicast str ws ≡ map (λ w. (w, str)) (registered ws))
      × (suc (length (multicast str (remove_writer writer ws))) ≡ length (multicast str ws))
multicast-remove_writer str writer ws some_writer there =
    (multicast_lem str ws, length-multicast-remove_writer str writer ws some_writer there)
