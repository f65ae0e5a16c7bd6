-- ===== src/Text/Completed.antt =====
-- The complete lines of a text, and what stands behind the last line end: how both go on from one
-- text to the next.
use linux_sensors.Base.{
  ◌+◌, ◌≤◌, ◌≡◌, refl, ap, sym, ◌∙◌, List, [], ◌∷◌, ◌++◌, append-nil, append_assoc, Bytes,
  Bool-cases, inl, inr, ◌==◌, if◌then◌else◌, length, length-append, ◌≢◌, All, All-append, arith,
}

abbrev pub newline : Bytes
newline = b'\n' ∷ []

-- The lines that a line end completes, with `cur` before the text, and what stands behind the last.
unfoldable pub complete : Bytes → Bytes → List Bytes
complete cur [] = []
complete cur (c ∷ cs) = if c == b'\n' then cur ∷ complete [] cs else complete (cur ++ c ∷ []) cs

unfoldable pub remainder : Bytes → Bytes → Bytes
remainder cur [] = cur
remainder cur (c ∷ cs) = if c == b'\n' then remainder [] cs else remainder (cur ++ c ∷ []) cs

-- The cut of a text in two pieces: what the first leaves is read before the second.
pub complete-append :
    (xs ys cur : Bytes)
    → complete cur (xs ++ ys) ≡ complete cur xs ++ complete (remainder cur xs) ys
unfolding complete remainder
complete-append [] ys cur = refl
complete-append (x ∷ xs) ys cur =
    ground (arith, complete-append xs ys [], complete-append xs ys (cur ++ x ∷ []))

pub remainder-append :
    (xs ys cur : Bytes) → remainder cur (xs ++ ys) ≡ remainder (remainder cur xs) ys
unfolding remainder
remainder-append [] ys cur = refl
remainder-append (x ∷ xs) ys cur =
    ground (arith, remainder-append xs ys [], remainder-append xs ys (cur ++ x ∷ []))

-- Text without a line end.
abbrev Unbroken : Bytes → Type 0
Unbroken = All (λ c. c ≢ b'\n')

remainder-Unbroken : (xs cur : Bytes) → Unbroken cur → Unbroken (remainder cur xs)
unfolding remainder
remainder-Unbroken [] cur h = h
remainder-Unbroken (x ∷ xs) cur h = elim (Bool-cases (x == b'\n')) [
  | inl e ↦ rw e (remainder-Unbroken xs [] tt)
  | inr e ↦ rw e (
      remainder-Unbroken xs (cur ++ x ∷ [])
        (All-append (λ c. c ≢ b'\n') cur (x ∷ []) h (ground arith)))
]

Unbroken-before :
    (p ys cur : Bytes)
    → Unbroken p
    → (complete cur (p ++ ys) ≡ complete (cur ++ p) ys)
      × (remainder cur (p ++ ys) ≡ remainder (cur ++ p) ys)
unfolding complete remainder
Unbroken-before [] ys cur h = (
  ap (λ t. complete t ys) (sym (append-nil cur)),
  ap (λ t. remainder t ys) (sym (append-nil cur)),
)
Unbroken-before (c ∷ p) ys cur (hc, hp) =
    ground (arith, Unbroken-before p ys (cur ++ c ∷ []) hp, append_assoc cur (c ∷ []) p)

-- What is left of one text can be put before the next text.
pub complete-remainder :
    (xs ys : Bytes) → complete [] (remainder [] xs ++ ys) ≡ complete (remainder [] xs) ys
complete-remainder xs ys = (Unbroken-before (remainder [] xs) ys [] (remainder-Unbroken xs [] tt)).0

pub remainder-remainder :
    (xs ys : Bytes) → remainder [] (remainder [] xs ++ ys) ≡ remainder [] (xs ++ ys)
remainder-remainder xs ys =
    (Unbroken-before (remainder [] xs) ys [] (remainder-Unbroken xs [] tt)).1
    ∙ sym (remainder-append xs ys [])

pub remainder-newline : (xs cur : Bytes) → remainder cur (xs ++ newline) ≡ []
unfolding remainder
remainder-newline [] cur = refl
remainder-newline (x ∷ xs) cur =
    ground (arith, remainder-newline xs [], remainder-newline xs (cur ++ x ∷ []))

pub length-remainder : (xs cur : Bytes) → length (remainder cur xs) ≤ length cur + length xs
unfolding remainder
length-remainder [] cur = omega arith
length-remainder (x ∷ xs) cur =
    ground (
      arith,
      length-remainder xs [],
      length-remainder xs (cur ++ x ∷ []),
      length-append cur (x ∷ []),
    )
