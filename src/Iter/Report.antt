-- ===== src/Iter/Report.antt =====
-- What ReportError keeps of the iterator.
use jsoniter.Base.{◌≡◌, ◌≢◌, refl, String, Option, none, some, Bytes, arith}
use jsoniter.Iter.Defs.{
  Iterator, Error, eof, read_error, reported, wrapped, make_report, report_error,
}
use jsoniter.Iter.View.{IsValid, Sees}

module _ (operation message : String) (detail : Bytes) (it : Iterator) where
  pub report_error_lem :
      (x : Error) × (report_error operation message detail it ≡ record it { error = some x })
  unfolding report_error
  report_error_lem = go it.error refl
    where
      new : Error
      new = reported (make_report operation message detail it)

      go :
          (o : Option Error)
          → it.error ≡ o
          → (x : Error) × (report_error operation message detail it ≡ record it { error = some x })
      go none e = (new, ground arith)
      go (some eof) e = (new, ground arith)
      go (some (read_error n)) e = (read_error n, ground arith)
      go (some (reported r)) e = (reported r, ground arith)
      go (some (wrapped s x)) e = (wrapped s x, ground arith)

  pub report_error-ne-none : (report_error operation message detail it).error ≢ none
  report_error-ne-none = let (x, e) = report_error_lem in rw e (cc)

  pub report_error-IsValid : IsValid it → IsValid (report_error operation message detail it)
  report_error-IsValid v =
      let (x, e) = report_error_lem in
      rw e (record { head_le = v.head_le; tail_le = v.tail_le; fits = v.fits })

  pub report_error-Sees :
      (rest : Bytes) → Sees rest it → Sees rest (report_error operation message detail it)
  report_error-Sees rest s =
      let (x, e) = report_error_lem in
      rw e (record {
        valid = record {
          head_le = s.valid.head_le;
          tail_le = s.valid.tail_le;
          fits = s.valid.fits;
        };
        remains = s.remains;
      })

  pub report_error-depth : (report_error operation message detail it).depth ≡ it.depth
  report_error-depth = let (x, e) = report_error_lem in rw e
