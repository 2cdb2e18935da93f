-- ===== src/Logs/LineTrip.antt =====
-- A line that was formatted is parsed again (core/lineinfo.py).
use nparse_plus.Prelude.{
  ℕ, ◌≡◌, refl, sym, ap, subst, ◌∙◌, Bool, true, false, some, [], ◌∷◌, ◌++◌, leb, length,
  length-append, arith, append_assoc,
}
use nparse_plus.Text.{Text, is_space, is_empty}
use nparse_plus.Logs.Stamps.{DateTime, is_date, parse_timestamp, format_timestamp}
use nparse_plus.Logs.StampTrip.{parse-format_timestamp}
use nparse_plus.Logs.LineInfo.{
  lstrip, strip, is_line_end, is_bom, line_of, parse_stripped, parse_line, format_line,
}
use nparse_plus.Logs.Brackets.{
  starts_with, ends_with, lstrip_same, rstrip_same, find_bracket-append, NoBracket, stamp_NoBracket,
  stamp_length,
}

ends-append :
    (p : ℕ → Bool) (s t : Text) → is_empty t ≡ false → ends_with p (s ++ t) ≡ ends_with p t
ends-append p [] t h = refl
ends-append p (c ∷ []) [] h = cc
ends-append p (c ∷ []) (d ∷ t) h = refl
ends-append p (c ∷ d ∷ s) t h = ends-append p (d ∷ s) t h

line_end_space : (s : Text) → ends_with is_space s ≡ false → ends_with is_line_end s ≡ false
unfolding is_space
line_end_space [] h = refl
line_end_space (c ∷ []) h = ground arith
line_end_space (c ∷ d ∷ s) h = line_end_space (d ∷ s) h

strip_same :
    (s : Text) → starts_with is_space s ≡ false → ends_with is_space s ≡ false → strip (32 ∷ s) ≡ s
unfolding strip
strip_same s h k = rw (lstrip_same is_space s h) (rstrip_same is_space s k)

ends_line :
    (stamp message : Text)
    → is_empty message ≡ false
    → ends_with is_space message ≡ false
    → ends_with is_line_end (91 ∷ (stamp ++ 93 ∷ 32 ∷ message)) ≡ false
ends_line stamp message e k =
    ends-append is_line_end (91 ∷ stamp) (93 ∷ 32 ∷ message) refl
    ∙ ends-append is_line_end (93 ∷ 32 ∷ []) message e
    ∙ line_end_space message k

long_enough :
    (stamp message : Text)
    → length stamp ≡ 24
    → is_empty message ≡ false
    → leb (length (91 ∷ (stamp ++ 93 ∷ 32 ∷ message))) 27 ≡ false
long_enough stamp [] l e = cc
long_enough stamp (c ∷ message) l e = ground (arith, length-append stamp (93 ∷ 32 ∷ c ∷ message), l)

stripped_lem :
    (stamp message : Text) (n : ℕ) (now when : DateTime)
    → NoBracket stamp
    → length stamp ≡ 24
    → parse_timestamp stamp ≡ some when
    → is_empty message ≡ false
    → starts_with is_space message ≡ false
    → ends_with is_space message ≡ false
    → parse_stripped (91 ∷ (stamp ++ 93 ∷ 32 ∷ message)) n now
      ≡ some (record {
        raw = 91 ∷ (stamp ++ 93 ∷ 32 ∷ message);
        message = message;
        timestamp = when;
        line_number = n;
      })
unfolding parse_stripped line_of
stripped_lem stamp message n now when a l p e s k =
    rw
      (
        long_enough stamp message l e,
        find_bracket-append (91 ∷ stamp) (32 ∷ message) (refl, a),
        strip_same message s k,
        e,
        p,
      )
      refl

-- The parts of a line in brackets, whatever its stamp.
bracketed_lem :
    (stamp message : Text) (n : ℕ) (now when : DateTime)
    → NoBracket stamp
    → length stamp ≡ 24
    → parse_timestamp stamp ≡ some when
    → is_empty message ≡ false
    → starts_with is_space message ≡ false
    → ends_with is_space message ≡ false
    → parse_line (91 ∷ (stamp ++ 93 ∷ 32 ∷ message)) n now
      ≡ some (record {
        raw = 91 ∷ (stamp ++ 93 ∷ 32 ∷ message);
        message = message;
        timestamp = when;
        line_number = n;
      })
unfolding parse_line
bracketed_lem stamp message n now when a l p e s k =
    ap (λ r. parse_stripped (lstrip is_bom r) n now)
      (rstrip_same is_line_end (91 ∷ (stamp ++ 93 ∷ 32 ∷ message)) (ends_line stamp message e k))
    ∙ stripped_lem stamp message n now when a l p e s k

-- A message without white space around it comes back from its line, with the time of the line up to
-- the second, and the number that the line is given: the clock is not asked.
pub parse-format_line :
    (message : Text) (when : DateTime) (n : ℕ) (now : DateTime)
    → is_date when ≡ true
    → is_empty message ≡ false
    → starts_with is_space message ≡ false
    → ends_with is_space message ≡ false
    → parse_line (format_line message when) n now
      ≡ some (record {
        raw = format_line message when;
        message = message;
        timestamp = record when { microsecond = 0 };
        line_number = n;
      })
unfolding format_line
parse-format_line message when n now d e s k =
    let stamp = format_timestamp when in
    subst
      (λ line.
        parse_line line n now
        ≡ some (record {
          raw = line;
          message = message;
          timestamp = record when { microsecond = 0 };
          line_number = n;
        }))
      (ap (◌∷◌ 91) (sym (append_assoc stamp (93 ∷ 32 ∷ []) message)))
      (bracketed_lem stamp message n now (record when { microsecond = 0 }) (stamp_NoBracket when d)
        (stamp_length when d) (parse-format_timestamp when d) e s k)
