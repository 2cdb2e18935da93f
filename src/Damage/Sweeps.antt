-- ===== src/Damage/Sweeps.antt =====
-- The sweep over the hits finds the best window (core/dps.py): `_rescan_best_window`.
use nparse_plus.Prelude.{
  ℕ, ◌+◌, ◌≤◌, ◌≡◌, refl, sym, ap, ap₂, subst, ◌∙◌, List, [], ◌∷◌, ◌++◌, arith, append_assoc, keep,
  keep-append, All, All-mono, All-append, All-keep_of_All, max,
}
use nparse_plus.Damage.Entity.{Hit, hits_from, slide, Sweep, sweep_hit, sweep_all}
use nparse_plus.Damage.Windows.{
  total, is_within, window_sum, best_among, best_window, IsLate, Follows, IsOrdered,
  IsOrdered-append, IsOrdered-keep, keep-keep_within, rest, hits_from-all, From, slide-From,
  slide-total, rest-keep,
}

-- What a sweep carries after some hits: the sum of the hits from its index on, and those hits are
-- all that any later window keeps.
record IsSwept (window : ℕ) (seen : List Hit) (s : Sweep) : Type 0 where
  open_hits : List Hit
  from : From s.left seen open_hits
  summed : s.sum ≡ total open_hits
  ordered : IsOrdered open_hits
  late : (t : ℕ) → IsLate t seen → IsLate t open_hits
  kept :
      (t : ℕ) → IsLate t seen → keep (is_within window t) open_hits ≡ keep (is_within window t) seen

All-append_parts {κ} :
    (P : Hit → Type κ) (xs : List Hit) (h : Hit) → All P (xs ++ h ∷ []) → All P xs × P h
All-append_parts P [] h a = (tt, a.0)
All-append_parts P (x ∷ xs) h a =
    let (more, last) = All-append_parts P xs h a.1 in ((a.0, more), last)

pub total-append : (xs ys : List Hit) → total (xs ++ ys) ≡ total xs + total ys
total-append [] ys = omega arith
total-append (x ∷ xs) ys = omega (arith, total-append xs ys)

module _ (window : ℕ) (seen : List Hit) (h : Hit) (s : Sweep) (l : IsLate h.time seen)
    (v : IsSwept window seen s) where
  abbrev slid : ℕ × ℕ
  slid = slide window h.time (v.open_hits ++ h ∷ []) s.left (s.sum + h.damage)

  abbrev now_open : List Hit
  now_open = keep (is_within window h.time) v.open_hits ++ h ∷ []

  abbrev stopped : rest window h.time (v.open_hits ++ h ∷ []) ≡ now_open
  stopped = rest-keep window h.time v.open_hits h v.ordered

  From-slid : From slid.0 (seen ++ h ∷ []) now_open
  From-slid = subst (From slid.0 (seen ++ h ∷ [])) stopped (
      slide-From window h.time s.left (s.sum + h.damage) (seen ++ h ∷ []) (v.open_hits ++ h ∷ [])
        (λ zs.
          ap (hits_from s.left) (append_assoc seen (h ∷ []) zs)
          ∙ v.from (h ∷ zs)
          ∙ sym (append_assoc v.open_hits (h ∷ []) zs)))

  summed_slid : slid.1 ≡ total now_open
  summed_slid =
      slide-total window h.time s.left (s.sum + h.damage) (v.open_hits ++ h ∷ [])
        (omega (arith, v.summed, total-append v.open_hits (h ∷ [])))
      ∙ ap total stopped

  kept_slid :
      (t : ℕ)
      → IsLate t (seen ++ h ∷ [])
      → keep (is_within window t) now_open ≡ keep (is_within window t) (seen ++ h ∷ [])
  kept_slid t a =
      let (early, le) = All-append_parts (λ k. k.time ≤ t) seen h a in
      let p = is_within window t in
      keep-append p (keep (is_within window h.time) v.open_hits) (h ∷ [])
      ∙ ap (λ l. l ++ keep p (h ∷ []))
          (keep-keep_within window h.time t v.open_hits le ∙ v.kept t early)
      ∙ sym (keep-append p seen (h ∷ []))

  slid-IsSwept :
      (b : ℕ) → IsSwept window (seen ++ h ∷ []) (record { left = slid.0; sum = slid.1; best = b })
  slid-IsSwept b = record {
    open_hits = now_open;
    from = From-slid;
    summed = summed_slid;
    ordered =
        IsOrdered-append (keep (is_within window h.time) v.open_hits) h
          (IsOrdered-keep (is_within window h.time) v.open_hits v.ordered)
          (All-keep_of_All (λ k. k.time ≤ h.time) (is_within window h.time) v.open_hits
            (v.late h.time l));
    late = λ t a.
        let (early, le) = All-append_parts (λ k. k.time ≤ t) seen h a in
        All-append (λ k. k.time ≤ t) (keep (is_within window h.time) v.open_hits) (h ∷ [])
          (All-keep_of_All (λ k. k.time ≤ t) (is_within window h.time) v.open_hits (v.late t early))
          (le, tt);
    kept = kept_slid;
  }

  slid_sum : slid.1 ≡ window_sum window seen h
  slid_sum =
      summed_slid
      ∙ total-append (keep (is_within window h.time) v.open_hits) (h ∷ [])
      ∙ ap₂ (λ xs n. total xs + n) (v.kept h.time l) (omega arith)

  sweep_hit-IsSwept :
      IsSwept window (seen ++ h ∷ []) (sweep_hit window (seen ++ h ∷ []) h s)
      × ((sweep_hit window (seen ++ h ∷ []) h s).best ≡ max s.best (window_sum window seen h))
  unfolding sweep_hit
  sweep_hit-IsSwept = rw (v.from (h ∷ [])) (slid-IsSwept _, ground (arith, slid_sum))

IsLate-mono : (t u : ℕ) (hs : List Hit) → t ≤ u → IsLate t hs → IsLate u hs
IsLate-mono t u hs le = All-mono (λ h. h.time ≤ t) (λ h. h.time ≤ u) (λ h k. omega arith) hs

sweep_all-IsSwept :
    (window t : ℕ) (seen hs : List Hit) (s : Sweep)
    → IsLate t seen
    → Follows t hs
    → IsSwept window seen s
    → (sweep_all window seen hs s).best ≡ max s.best (best_among window seen hs)
unfolding sweep_all
sweep_all-IsSwept window t seen [] s l f v = omega arith
sweep_all-IsSwept window t seen (h ∷ hs) s l f v =
    let late = IsLate-mono t h.time seen f.0 l in
    let (v', e) = sweep_hit-IsSwept window seen h s late v in
    omega (
      arith,
      e,
      sweep_all-IsSwept window h.time (seen ++ h ∷ []) hs (sweep_hit window (seen ++ h ∷ []) h s)
          (All-append (λ k. k.time ≤ h.time) seen (h ∷ []) late (omega arith, tt)) f.1 v',
    )

abbrev pub start : Sweep
start = record { left = 0; sum = 0; best = 0 }

start-IsSwept : (window : ℕ) → IsSwept window [] start
start-IsSwept window = record {
  open_hits = [];
  from = hits_from-all;
  summed = refl;
  ordered = tt;
  late = λ t a. tt;
  kept = λ t a. refl;
}

-- The sweep finds the best window of hits that come in the order of time.
pub sweep_all-best :
    (window : ℕ) (hits : List Hit)
    → Follows 0 hits
    → (sweep_all window [] hits start).best ≡ best_window window hits
sweep_all-best window hits f =
    omega (arith, sweep_all-IsSwept window 0 [] hits start tt f (start-IsSwept window))
