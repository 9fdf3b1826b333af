-- ===== src/Parse/Child.antt =====
-- The parsers of the crate as children of one another, where the fallback to raw is on.
use maja.Base.{ℕ, ◌+◌, ◌≤◌, ◌<◌, ◌≡◌, true}
use maja.Protocol.{Protocol}
use maja.Context.{ParseError, ok, err, ParseContext, end, parse_raw, parse_child_with}
use maja.Context.Outcome.{Shallow}
use maja.Context.Child.{parse_child_with-err, parse_child_with-ok}
use maja.Parse.{Custom, parse}
use maja.Parse.Total.{WellBehaved, parse-Serves}

module _ (custom : Custom) (good : WellBehaved custom) where
  -- Where the fallback is on, the custom parsers are well-behaved, the depth is kept to and the
  -- fuel is enough, a child parser that fails leaves exactly what recording its payload raw would
  -- have left, whatever layers it had pushed before.
  pub parse_child_rolls_back :
      (fuel : ℕ) (p : Protocol) (offset : ℕ) (c c' : ParseContext) (e : ParseError)
      → Shallow c
      → offset ≤ end c
      → end c < offset + fuel
      → c.options.fallback_to_raw_on_child_error ≡ true
      → parse custom fuel p offset c ≡ (err e, c')
      → parse_child_with (parse custom fuel p) offset c ≡ parse_raw offset c
  parse_child_rolls_back fuel p offset c c' e h inside enough back fails =
      parse_child_with-err (parse custom fuel p) offset c c' e back fails
        (parse-Serves custom good fuel p offset c h inside enough)

  -- Where the fallback is on, the custom parsers are well-behaved, the depth is kept to and the
  -- fuel is enough, parsing a child returns no error.
  parse_child_never_fails :
      (fuel : ℕ) (p : Protocol) (offset : ℕ) (c : ParseContext)
      → Shallow c
      → offset ≤ end c
      → end c < offset + fuel
      → c.options.fallback_to_raw_on_child_error ≡ true
      → (parse_child_with (parse custom fuel p) offset c).0 ≡ ok tt
  parse_child_never_fails fuel p offset c h inside enough back =
      parse_child_with-ok (parse custom fuel p) offset c back
        (parse-Serves custom good fuel p offset c h inside enough)
