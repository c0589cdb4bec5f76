-- ===== src/Recorder/Outputs.antt =====
-- When the outputs of a recording are shifted, and which commands are behind them.
use meeting_baa_s.Base.{
  ◌≡◌, refl, ap, sym, ◌∙◌, ◌⊎◌, inl, inr, String, true, false, none, some, List, ◌∷◌, Result, ok,
  str_eq, Failure, Bool-cases, if_true, if_false, arith,
}
use meeting_baa_s.Recorder.Offset.{remove, stat, probe, ffmpeg, run, Outside, Command}
use meeting_baa_s.Recorder.Measured.{IsNumeric, IsMeasured, calculate_offset-IsMeasured}
use meeting_baa_s.Recorder.Finalize.{
  no_pass, duration_of, stated, failed, remuxed, result_of, result, extract_wav, tmp_wav,
  probed_pass, Pass, remux_mp4, extract_wav_with_offset, remux_args, offset_wav_args,
  FinalizeOptions, FinalizeResult, Paths, with_defaults, offset_pass, outputs, clean_up, process,
  finalize,
}

module _ (out : Outside) (paths : Paths) (n : IsNumeric out) where
  -- The commands that make the two files of a result, and that were answered without an error,
  -- behind those of `rest`.
  abbrev mp4_command : FinalizeOptions → FinalizeResult out paths → Command
  mp4_command o r = ffmpeg (remux_args out paths o.raw_path r.mp4_path r.offset r.offset_used)

  abbrev wav_command : FinalizeOptions → FinalizeResult out paths → Command
  wav_command o r =
      ffmpeg
        (offset_wav_args out paths o.raw_path r.wav_path o.wav_sample_rate r.offset r.offset_used)

  pub record IsMade (o : FinalizeOptions) (r : FinalizeResult out paths) (calls : List Command)
      : Type 0 where
    pub rest : List Command
    pub last : calls ≡ wav_command o r ∷ (mp4_command o r ∷ rest)
    pub mp4_path : r.mp4_path ≡ paths.join o.output_dir o.mp4_name
    pub wav_path : r.wav_path ≡ paths.join o.output_dir o.wav_name
    pub mp4_made : (out.answer rest (mp4_command o r)).1 ≡ none
    pub wav_made : (out.answer (mp4_command o r ∷ rest) (wav_command o r)).1 ≡ none

  failed-none : (what : String) (a : String × Failure) → failed out paths what a ≡ none → a.1 ≡ none
  unfolding failed
  failed-none what (text, none) h = refl
  failed-none what (text, some e) h = absurd cc

  module _ (o : FinalizeOptions) (duration : out.floats.F) (p : Pass out paths) where
    remuxed-ok :
        (f : Failure) (after : List Command) (r : FinalizeResult out paths)
        → (remuxed out paths o duration p (f, after)).0 ≡ ok r
        → (f ≡ none)
          × (remuxed out paths o duration p (f, after)
              ≡ result_of out paths o duration p (
                  extract_wav_with_offset out paths o.raw_path
                    (paths.join o.output_dir o.wav_name)
                    o.wav_sample_rate
                    p.sync
                    p.offset_used
                    after))
    remuxed-ok none after r h = (refl, refl)
    remuxed-ok (some e) after r h = absurd cc

    result_of-ok :
        (f : Failure) (after : List Command) (r : FinalizeResult out paths)
        → (result_of out paths o duration p (f, after)).0 ≡ ok r
        → (f ≡ none)
          × (r ≡ result out paths o duration p)
          × ((result_of out paths o duration p (f, after)).1 ≡ after)
    result_of-ok none after r h = (refl, cc, refl)
    result_of-ok (some e) after r h = absurd cc

    outputs-IsMade :
        (before : List Command) (r : FinalizeResult out paths)
        → (outputs out paths o duration p before).0 ≡ ok r
        → IsMade o r (outputs out paths o duration p before).1 × (r ≡ result out paths o duration p)
    unfolding outputs remux_mp4 extract_wav_with_offset run
    outputs-IsMade before r h =
        let made = result out paths o duration p in
        let (f, after) =
          remux_mp4 out paths o.raw_path made.mp4_path made.offset made.offset_used before in
        let (g, last) =
          extract_wav_with_offset out paths o.raw_path made.wav_path o.wav_sample_rate made.offset
            made.offset_used after in
        let (m, e) = remuxed-ok f after r h in
        let (w, i, t) = result_of-ok g last r (sym (ap (λ x. x.0) e) ∙ h) in
        (
          rw i (record {
            rest = before;
            last = ap (λ x. x.1) e ∙ t;
            mp4_path = refl;
            wav_path = refl;
            mp4_made = failed-none "ffmpeg remux: " (out.answer before (mp4_command o made)) m;
            wav_made = failed-none "ffmpeg wav: " (out.answer after (wav_command o made)) w;
          }),
          i,
        )

  -- A pass whose offset is used has the two signals, and a probe to remove.
  abbrev IsTrusted : FinalizeOptions → Pass out paths → Type 0
  IsTrusted o p =
      p.offset_used ≡ true → (o.apply_offset ≡ true) × (p.probed ≡ true) × IsMeasured out p.sync

  probed_pass-IsTrusted :
      (o : FinalizeOptions) (f : Failure) (after : List Command)
      → o.apply_offset ≡ true
      → IsTrusted o (probed_pass out paths o (f, after)).0
  probed_pass-IsTrusted o none after a u =
      (a, refl, calculate_offset-IsMeasured out paths n (tmp_wav out paths o) o.raw_path after u)
  probed_pass-IsTrusted o (some e) after a u = absurd cc

  offset_pass-cases :
      (o : FinalizeOptions) (before : List Command)
      → let w = extract_wav out paths o.raw_path (tmp_wav out paths o) o.wav_sample_rate before in
        ((o.apply_offset ≡ true) × (offset_pass out paths o before ≡ probed_pass out paths o w))
        ⊎ (offset_pass out paths o before ≡ (no_pass out paths, before))
  unfolding offset_pass
  offset_pass-cases o before = elim (Bool-cases o.apply_offset) [
    | inl a ↦ inl (a, if_true _ _ a)
    | inr a ↦ inr (if_false _ _ a)
  ]

  offset_pass-IsTrusted :
      (o : FinalizeOptions) (before : List Command) → IsTrusted o (offset_pass out paths o before).0
  offset_pass-IsTrusted o before =
      let w = extract_wav out paths o.raw_path (tmp_wav out paths o) o.wav_sample_rate before in
      elim (offset_pass-cases o before) [
        | inl (a, e) ↦ rw e (probed_pass-IsTrusted o w.0 w.1 a)
        | inr e ↦ rw e (λ u. absurd cc)
      ]

  clean_up-cases :
      (o : FinalizeOptions) (p : Pass out paths)
      (x : Result (FinalizeResult out paths) × List Command)
      → ((p.probed ≡ true) × (clean_up out paths o p x ≡ (x.0, remove (tmp_wav out paths o) ∷ x.1)))
        ⊎ ((p.probed ≡ false) × (clean_up out paths o p x ≡ x))
  unfolding clean_up run
  clean_up-cases o p x = elim (Bool-cases p.probed) [
    | inl e ↦ inl (e, if_true _ _ e)
    | inr e ↦ inr (e, if_false _ _ e)
  ]

  -- The files of a result and the commands behind them: behind the two conversions only the sync
  -- probe is removed, which it always is where the offset was used.
  pub record IsFinal (o : FinalizeOptions) (r : FinalizeResult out paths) (calls : List Command)
      : Type 0 where
    pub conversions : List Command
    pub made : IsMade o r conversions
    pub cleaned : (calls ≡ conversions) ⊎ (calls ≡ remove (tmp_wav out paths o) ∷ conversions)
    pub trusted :
        r.offset_used ≡ true
        → (o.apply_offset ≡ true)
          × IsMeasured out r.offset
          × (calls ≡ remove (tmp_wav out paths o) ∷ conversions)

  clean_up-IsFinal :
      (o : FinalizeOptions) (p : Pass out paths)
      (x : Result (FinalizeResult out paths) × List Command) (r : FinalizeResult out paths)
      → IsTrusted o p
      → IsMade o r x.1
      → r.offset ≡ p.sync
      → r.offset_used ≡ p.offset_used
      → IsFinal o r (clean_up out paths o p x).1
  clean_up-IsFinal o p x r t m s u = elim (clean_up-cases o p x) [
    | inl (on, e) ↦ record {
      conversions = x.1;
      made = m;
      cleaned = inr (ap (λ y. y.1) e);
      trusted = λ v. let (a, _, i) = t (sym u ∙ v) in (a, rw s i, ap (λ y. y.1) e);
    }
    | inr (off, e) ↦ record {
      conversions = x.1;
      made = m;
      cleaned = inl (ap (λ y. y.1) e);
      trusted = λ v. absurd (let (_, on, _) = t (sym u ∙ v) in ground arith);
    }
  ]

  clean_up-result :
      (o : FinalizeOptions) (p : Pass out paths)
      (x : Result (FinalizeResult out paths) × List Command)
      → (clean_up out paths o p x).0 ≡ x.0
  clean_up-result o p x = elim (clean_up-cases o p x) [
    | inl (_, e) ↦ ap (λ y. y.0) e
    | inr (_, e) ↦ ap (λ y. y.0) e
  ]

  process-IsFinal :
      (o : FinalizeOptions) (before : List Command) (r : FinalizeResult out paths)
      → (process out paths o before).0 ≡ ok r
      → IsFinal o r (process out paths o before).1
  unfolding process
  process-IsFinal o before r h =
      let (probed, b) = probe out o.raw_path before in
      let (p, c) = offset_pass out paths o b in
      let duration = duration_of out paths probed in
      let x = outputs out paths o duration p c in
      let (m, i) = outputs-IsMade o duration p c r (sym (clean_up-result o p x) ∙ h) in
      clean_up-IsFinal o p x r (offset_pass-IsTrusted o b) m (ap (λ q. q.offset) i)
        (ap (λ q. q.offset_used) i)

  stated-IsFinal :
      (o : FinalizeOptions) (a : String × Failure) (after : List Command)
      (r : FinalizeResult out paths)
      → (stated out paths o (a, after)).0 ≡ ok r
      → IsFinal (with_defaults paths o) r (stated out paths o (a, after)).1
  stated-IsFinal o (text, none) after r h = process-IsFinal (with_defaults paths o) after r h
  stated-IsFinal o (text, some e) after r h = absurd cc

  -- When Finalize gives a result, its two files have the names of the options, with their defaults,
  -- and the two conversions that made them were the last commands but for the removal of the sync
  -- probe, and were answered without an error. Where the offset is used, the options ask for it, it
  -- is the time of a flash above 0.5 and below 10 seconds less that of a beep above 0.01 and below
  -- 10, and the sync probe is removed. The numbers satisfy 0 <= 0, and not 0.5 <= 0.1.
  pub finalize-IsFinal :
      (o : FinalizeOptions) (before : List Command) (r : FinalizeResult out paths)
      → (finalize out paths o before).0 ≡ ok r
      → IsFinal (with_defaults paths o) r (finalize out paths o before).1
  unfolding finalize run
  finalize-IsFinal o before r h = elim (Bool-cases (str_eq o.raw_path "")) [
    | inl e ↦ absurd (ground (arith, rw e at h))
    | inr e ↦ rw e (
        stated-IsFinal o (out.answer before (stat o.raw_path)) (stat o.raw_path ∷ before) r
          (rw e at h))
  ]
