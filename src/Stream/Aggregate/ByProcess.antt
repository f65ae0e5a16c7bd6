-- ===== src/Stream/Aggregate/ByProcess.antt =====
-- What the map of include/stream/memory_stream.h holds after a pack: for each process its system
-- calls, in the order of the records.
use linux_sensors.Base.{
  ◌≡◌, List, [], ◌∷◌, ◌++◌, Bool, true, false, Option, none, some, refl, sym, ap, ◌∙◌,
  if◌then◌else◌, append_assoc, append-nil, Bool-cases, inl, inr, eq_self, ==_iff,
}
use linux_sensors.Base.Int.{ℤ, pos, negsuc}
use linux_sensors.Trace.{SysParamsRecord}
use linux_sensors.Stream.Aggregate.{int_eq, Traces, find, add_call, memory_dispatch}

-- The system calls of one process among the records.
abbrev pub calls_of : ℤ → List SysParamsRecord → List ℤ
calls_of pid [] = []
calls_of pid (r ∷ records) =
    if int_eq r.base.pid pid then r.base.syscall ∷ calls_of pid records else calls_of pid records

-- What a map holds for a process, which may be nothing.
abbrev pub held : Option (List ℤ) → List ℤ
held none = []
held (some calls) = calls

int_eq→≡ : (a b : ℤ) → int_eq a b ≡ true → a ≡ b
unfolding int_eq
int_eq→≡ (pos m) (pos n) h = ap pos ((==_iff m n).0 h)
int_eq→≡ (pos m) (negsuc n) h = cc
int_eq→≡ (negsuc m) (pos n) h = cc
int_eq→≡ (negsuc m) (negsuc n) h = ap negsuc ((==_iff m n).0 h)

int_eq_self : (a : ℤ) → int_eq a a ≡ true
unfolding int_eq
int_eq_self (pos m) = eq_self m
int_eq_self (negsuc m) = eq_self m

-- One record adds its call to its process, behind the calls that are there, and to no other.
find-add_call :
    (k p c : ℤ) (traces : Traces)
    → held (find k (add_call p c traces))
      ≡ held (find k traces) ++ (if int_eq p k then c ∷ [] else [])
unfolding add_call find
find-add_call k p c [] = elim (Bool-cases (int_eq p k)) [ inl e ↦ rw e refl | inr e ↦ rw e refl ]
find-add_call k p c ((j, calls) ∷ traces) = elim (Bool-cases (int_eq j p)) [
  | inl e ↦
      rw (int_eq→≡ j p e, int_eq_self p)
        (elim (Bool-cases (int_eq p k)) [
          | inl f ↦ rw f refl
          | inr f ↦ rw f (sym (append-nil (held (find k traces))))
        ])
  | inr e ↦ rw e (elim (Bool-cases (int_eq j k)) [
    | inl f ↦ rw (f, other j p k e f) (sym (append-nil calls))
    | inr f ↦ rw f (find-add_call k p c traces)
  ])
]
  where
    other : (j p k : ℤ) → int_eq j p ≡ false → int_eq j k ≡ true → int_eq p k ≡ false
    other j p k e f = elim (Bool-cases (int_eq p k)) [
      | inl g ↦ absurd (cc (e, int_eq→≡ j k f, int_eq→≡ p k g, int_eq_self k))
      | inr g ↦ g
    ]

-- After a pack of records, the map holds for every process what it held before and then the system
-- calls of that process in the pack, in their order.
pub memory_dispatch-calls_of :
    (k : ℤ) (records : List SysParamsRecord) (traces : Traces)
    → held (find k (memory_dispatch records traces)) ≡ held (find k traces) ++ calls_of k records
unfolding memory_dispatch
memory_dispatch-calls_of k [] traces = sym (append-nil (held (find k traces)))
memory_dispatch-calls_of k (r ∷ records) traces =
    memory_dispatch-calls_of k records (add_call r.base.pid r.base.syscall traces)
    ∙ ap (λ t. t ++ calls_of k records) (find-add_call k r.base.pid r.base.syscall traces)
    ∙ append_assoc (held (find k traces)) (if int_eq r.base.pid k then r.base.syscall ∷ [] else [])
        (calls_of k records)
    ∙ ap (λ t. held (find k traces) ++ t) (one (int_eq r.base.pid k))
  where
    one :
        (b : Bool)
        → (if b then r.base.syscall ∷ [] else []) ++ calls_of k records
          ≡ (if b then r.base.syscall ∷ calls_of k records else calls_of k records)
    one true = refl
    one false = refl
