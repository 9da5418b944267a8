-- ===== src/Signal/Monitor.antt =====
-- `startSignalMonitor` of src/backend/capture/signal.ts: the readings in the output of rtl_power,
-- whose chunks may end anywhere in a line.
use noaa_satellite_capture.Base.{
  String, ◌≡◌, refl, sym, ap, ◌∙◌, inl, inr, none, some, List, [], ◌∷◌, ◌++◌, Option-cases, ℤ,
}
use noaa_satellite_capture.Base.Texts.{
  split, init, last_or_empty, init-append, last_or_empty-append, split-cons, split-append,
}
use noaa_satellite_capture.Signal.{ParseFloat, newline, parse_power_from_line}
use Prim.Native.String.{◌++◌ as ◌+++◌}
use mathlib.Core.List as L
use text.Mathlib.TextLemmas.{append-nil, append_assoc}

pub record Monitor : Type 0 where
  pub buffer : String
  -- What was passed to `onReading`.
  pub readings : List ℤ

abbrev pub start_monitor : Monitor
start_monitor = record { buffer = ""; readings = [] }

-- `lines.forEach(...)`: the readings of the lines that hold one.
unfoldable pub readings_of : ParseFloat → List String → List ℤ
readings_of parse_float [] = []
readings_of parse_float (line ∷ lines) = elim (parse_power_from_line parse_float line) [
  | none ↦ readings_of parse_float lines
  | some power ↦ power ∷ readings_of parse_float lines
]

-- The handler of the 'data' event.
unfoldable pub on_data : ParseFloat → String → Monitor → Monitor
on_data parse_float chunk s =
    let lines = split newline (s.buffer +++ chunk) in
    record {
      buffer = last_or_empty lines;
      readings = s.readings ++ readings_of parse_float (init lines);
    }

unfoldable pub on_chunks : ParseFloat → List String → Monitor → Monitor
on_chunks parse_float [] s = s
on_chunks parse_float (c ∷ cs) s = on_chunks parse_float cs (on_data parse_float c s)

-- The output as a whole.
abbrev pub concat : List String → String
concat [] = ""
concat (c ∷ cs) = c +++ concat cs

readings_of-append :
    (parse_float : ParseFloat) (xs ys : List String)
    → readings_of parse_float (xs ++ ys) ≡ readings_of parse_float xs ++ readings_of parse_float ys
unfolding readings_of
readings_of-append parse_float [] ys = refl
readings_of-append parse_float (x ∷ xs) ys =
    elim (Option-cases (parse_power_from_line parse_float x)) [
      | inl e ↦ rw (e, readings_of) (readings_of-append parse_float xs ys)
      | inr (power, e) ↦
          rw (e, readings_of) (ap (λ z. power ∷ z) (readings_of-append parse_float xs ys))
    ]

-- Two chunks are read like their concatenation.
on_data-append :
    (parse_float : ParseFloat) (a b : String) (s : Monitor)
    → on_data parse_float b (on_data parse_float a s) ≡ on_data parse_float (a +++ b) s
unfolding on_data
on_data-append parse_float a b s =
    let lines = split newline (s.buffer +++ a) in
    let (w, ws, e) = split-cons newline (last_or_empty lines +++ b) in
    let whole : split newline (s.buffer +++ (a +++ b)) ≡ init lines ++ w ∷ ws =
      rw (sym (append_assoc s.buffer a b), split-append newline (s.buffer +++ a) b, e) refl in
    rw
      (
        whole,
        e,
        init-append (init lines) w ws,
        last_or_empty-append (init lines) w ws,
        readings_of-append parse_float (init lines) (init (w ∷ ws)),
        L.append_assoc,
      )
      refl

on_chunks-cons :
    (parse_float : ParseFloat) (c : String) (cs : List String) (s : Monitor)
    → on_chunks parse_float (c ∷ cs) s ≡ on_data parse_float (c +++ concat cs) s
unfolding on_chunks
on_chunks-cons parse_float c [] s = rw (append-nil c) refl
on_chunks-cons parse_float c (d ∷ cs) s =
    on_chunks-cons parse_float d cs (on_data parse_float c s)
    ∙ on_data-append parse_float c (concat (d ∷ cs)) s

-- However the output is cut into chunks, the readings and the rest in the buffer are those of the
-- output as a whole.
pub on_chunks-concat :
    (parse_float : ParseFloat) (chunks : List String)
    → on_chunks parse_float chunks start_monitor ≡ on_data parse_float (concat chunks) start_monitor
on_chunks-concat parse_float [] = unfold on_chunks on_data split readings_of in refl
on_chunks-concat parse_float (c ∷ cs) = on_chunks-cons parse_float c cs start_monitor
