-- ===== src/Storage/Compress/Serial/Reading.antt =====
-- Readers of the format of lib/storage/compress.c that undo its writers.
use mathlib.Core.List.{append_assoc}
use mathlib.Core.Path.{subst}
use napastak.Base.{
  ℕ, zero, suc, ◌+◌, ◌*◌, ◌/◌, ◌%◌, ◌<◌, ◌≡◌, refl, sym, ◌∙◌, ap, some, List, [], ◌∷◌, ◌++◌, map,
  ◌^◌, true, none, ltb, if◌then◌else◌, arith, length, take_all, All, All-mono,
}
use napastak.Storage.Compress.Rle.{Runs}
use napastak.Storage.Compress.Serial.{
  Reader, pure, bound, ◌>>=◌, le, read_le, read_below, raw, many, concat, write_run, read_run,
  write_runs, read_runs,
}

-- The reader takes exactly `bs` from the front, whatever follows, and gives `a`.
pub record Reads {A : Type 0} (r : Reader A) (bs : List ℕ) (a : A) : Type 0 where
  pub run : (rest : List ℕ) → r (bs ++ rest) ≡ some (a, rest)

bind-run :
    {A B : Type 0} (r : Reader A) (f : A → Reader B) (bs : List ℕ) → (r >>= f) bs ≡ bound f (r bs)
unfolding ◌>>=◌
bind-run r f bs = refl

pure-run : {A : Type 0} (a : A) (bs : List ℕ) → pure a bs ≡ some (a, bs)
unfolding pure
pure-run a bs = refl

pub Reads-pure : {A : Type 0} (a : A) → Reads (pure a) [] a
Reads-pure a = record { run = λ rest. pure-run a rest }

pub Reads-bind :
    {A B : Type 0} {r : Reader A} {bs cs : List ℕ} {a : A} {b : B} (f : A → Reader B)
    → Reads r bs a
    → Reads (f a) cs b
    → Reads (r >>= f) (bs ++ cs) b
Reads-bind {A} {B} {r} {bs} {cs} {a} {b} f h k = record {
  run = λ rest.
      bind-run r f ((bs ++ cs) ++ rest)
      ∙ ap (λ s. bound f (r s)) (append_assoc bs cs rest)
      ∙ ap (bound f) (h.run (cs ++ rest))
      ∙ k.run rest;
}

pub Reads-map :
    {A B : Type 0} {r : Reader A} {bs : List ℕ} {a : A} (g : A → B)
    → Reads r bs a
    → Reads (r >>= (λ x. pure (g x))) bs (g a)
Reads-map {A} {B} {r} {bs} {a} g h = record {
  run = λ rest.
      bind-run r (λ x. pure (g x)) (bs ++ rest)
      ∙ ap (bound (λ x. pure (g x))) (h.run rest)
      ∙ pure-run (g a) rest;
}

-- The numbers below 256 to the power of `k`.
abbrev pub limit : ℕ → ℕ
limit zero = 1
limit (suc k) = 256 * limit k

pub Reads-le : (k v : ℕ) → v < limit k → Reads (read_le k) (le k v) v
unfolding read_le le
Reads-le zero v h = record { run = λ rest. let z : v ≡ 0 = omega arith in rw z refl }
Reads-le (suc k) v h =
    let ih = Reads-le k (v / 256) (omega arith) in
    let whole : v % 256 + 256 * (v / 256) ≡ v = omega arith in
    record { run = λ rest. rw (ih.run rest) (ap (λ x. some (x, rest)) whole) }

below-pure : (k v : ℕ) → v < k → (if ltb v k then pure v else (λ bs. none)) ≡ pure v
below-pure k v h = let y : ltb v k ≡ true = ground (arith, h) in rw y refl

pub Reads-below : (k v : ℕ) → v < k → v < limit 4 → Reads (read_below k) (le 4 v) v
unfolding read_below le
Reads-below k v h l =
    Reads-bind (λ n. if ltb n k then pure n else (λ bs. none)) (Reads-le 4 v l)
      (subst (λ r. Reads r [] v) (sym (below-pure k v h)) (Reads-pure v))

pub Reads-raw : (s : List ℕ) → Reads (raw (length s)) s s
unfolding raw
Reads-raw [] = record { run = λ rest. refl }
Reads-raw (b ∷ s) = let ih = Reads-raw s in record { run = λ rest. rw (ih.run rest) refl }

many-zero : {A : Type 0} (r : Reader A) (rest : List ℕ) → many 0 r rest ≡ some ([], rest)
unfolding many pure
many-zero r rest = refl

many-suc :
    {A : Type 0} (n : ℕ) (r : Reader A)
    → many (suc n) r ≡ (r >>= (λ a. many n r >>= (λ l. pure (a ∷ l))))
unfolding many
many-suc n r = refl

pub Reads-many :
    {A B : Type 0} (r : Reader B) (w : A → List ℕ) (g : A → B) (l : List A)
    → All (λ a. Reads r (w a) (g a)) l
    → Reads (many (length l) r) (concat w l) (map g l)
unfolding concat
Reads-many r w g [] h = record { run = λ rest. many-zero r rest }
Reads-many r w g (a ∷ l) h =
    subst (λ q. Reads q (w a ++ concat w l) (g a ∷ map g l)) (sym (many-suc (length l) r))
      (Reads-bind (λ b. many (length l) r >>= (λ t. pure (b ∷ t))) h.0
        (Reads-map (λ t. g a ∷ t) (Reads-many r w g l h.1)))

map_same : {A : Type 0} (l : List A) → map (λ a. a) l ≡ l
map_same [] = refl
map_same (a ∷ l) = ap (λ t. a ∷ t) (map_same l)

pub Reads-many_same :
    {A : Type 0} (r : Reader A) (w : A → List ℕ) (n : ℕ) (l : List A)
    → n ≡ length l
    → All (λ a. Reads r (w a) a) l
    → Reads (many n r) (concat w l) l
Reads-many_same r w n l e h =
    subst (λ m. Reads (many m r) (concat w l) l) (sym e)
      (subst (λ t. Reads (many (length l) r) (concat w l) t) (map_same l)
        (Reads-many r w (λ a. a) l h))

pub Reads-as :
    {A : Type 0} {r : Reader A} {bs cs : List ℕ} {a : A} → bs ≡ cs → Reads r bs a → Reads r cs a
Reads-as {A} {r} {bs} {cs} {a} e h = subst (λ s. Reads r s a) e h

-- Runs that fit the format, with values that satisfy `P`.
abbrev pub IsRuns : {A : Type 0} → (A → Type 0) → Runs A → Type 0
IsRuns {A} P s =
    (s.nruns ≡ length s.runs)
    × (s.nruns < 2 ^ 31)
    × All (λ (p : ℕ × A). (p.0 < limit 2) × P p.1) s.runs

module _ {A : Type 0} (r : Reader A) (w : A → List ℕ) where
  Reads-run :
      (n : ℕ) (a : A)
      → n < limit 2
      → Reads r (w a) a
      → Reads (read_run r) (write_run w (n, a)) (n, a)
  Reads-run n a l h =
      Reads-bind (λ m. r >>= (λ b. pure (m, b))) (Reads-le 2 n l) (Reads-map (λ b. (n, b)) h)

  write_runs-all :
      (s : Runs A)
      → s.nruns ≡ length s.runs
      → le 4 s.nruns ++ concat (write_run w) s.runs ≡ write_runs w s
  unfolding write_runs
  write_runs-all s e = rw (take_all s.nruns s.runs (omega (arith, e))) refl

  pub Reads-runs :
      (P : A → Type 0)
      → ((a : A) → P a → Reads r (w a) a)
      → (s : Runs A) → IsRuns P s
      → Reads (read_runs r) (write_runs w s) s
  unfolding read_runs
  Reads-runs P each s (e, l, h) = Reads-as (write_runs-all s e) (
      Reads-bind (λ n. many n (read_run r) >>= (λ t. pure (record { nruns = n; runs = t })))
        (Reads-below (2 ^ 31) s.nruns l (omega (arith, l)))
        (Reads-map (λ t. record { nruns = s.nruns; runs = t })
          (Reads-many_same (read_run r) (write_run w) s.nruns s.runs e (
            All-mono (λ (p : ℕ × A). (p.0 < limit 2) × P p.1)
              (λ (p : ℕ × A). Reads (read_run r) (write_run w p) p)
              (λ (p : ℕ × A) q. Reads-run p.0 p.1 q.0 (each p.1 q.1)) s.runs h))))
