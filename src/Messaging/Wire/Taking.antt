-- ===== src/Messaging/Wire/Taking.antt =====
-- core/messaging/src/wire.rs: the parts of a frame that were taken stand encoded in front of what is left.
use lowband.Prelude.{
  ℕ, zero, suc, ◌%◌, ◌^◌, ◌<◌, ◌≡◌, refl, sym, ap, arith, true, List, [], ◌∷◌, ◌++◌, append_assoc,
  length, ltb, Bool-cases, Option-cases, inl, inr,
}
use lowband.Messaging.Bytes.{
  to_le_bytes, split_at_checked, split_at_checked-some, to_le_bytes-from_le_bytes, AllBytes,
  AllBytes-append,
}
use lowband.Messaging.Utf8.{is_utf8}
use lowband.Messaging.Wire.{
  clipboard_max_text_bytes, ClipboardFileEntry, Result, ok, err, FrameError, truncated, too_long,
  bad_utf8, ◌>>=◌, ok_or, put_str, put_entries, take_uint, checked_text, take_text, take_str,
  take_entries,
}
use lowband.Messaging.Wire.RoundTrip.{IsText, AllEntries}

pub err≢ok {ℓ} : {A : Type ℓ} {e : FrameError} {a : A} → err e ≡ ok a → ⊥
err≢ok h = cc

-- A run that came to a value did so in both of its steps.
pub >>=-ok {ℓ κ} :
    {X : Type ℓ} {Y : Type κ} {y : Y} (next : X → Result Y) (run : Result X)
    → run >>= next ≡ ok y
    → (x : X) × (run ≡ ok x) × (next x ≡ ok y)
>>=-ok next (err error) came = absurd (err≢ok {e = error} came)
>>=-ok next (ok x) came = (x, refl, came)

pub ok_injective {ℓ} : {A : Type ℓ} {a b : A} → ok a ≡ ok b → a ≡ b
ok_injective h = cc

ok_pair {ℓ κ} :
    {A : Type ℓ} {B : Type κ} {a c : A} {b d : B}
    → ◌≡◌ {A = Result (A × B)} (ok (a, b)) (ok (c, d))
    → (a ≡ c) × (b ≡ d)
ok_pair {A = A} {B = B} {a = a} {c = c} {b = b} {d = d} h =
    let same : ◌≡◌ {A = A × B} (a, b) (c, d) = ok_injective h in
    (ap (λ p. p.0) same, ap (λ p. p.1) same)

-- A number that was taken stands encoded in front of what follows.
pub record TookUint (k : ℕ) (rest : List ℕ) (n : ℕ) (tail : List ℕ) : Type 0 where
  pub joined : rest ≡ to_le_bytes k n ++ tail
  pub bound : n < 256 ^ k
  pub bytes : AllBytes tail

pub take_uint-ok :
    (k : ℕ) (rest : List ℕ) (n : ℕ) (tail : List ℕ)
    → AllBytes rest
    → take_uint k rest ≡ ok (n, tail)
    → TookUint k rest n tail
unfolding take_uint
take_uint-ok k rest n tail h e = elim (Option-cases (split_at_checked k rest)) [
  | inl short ↦ absurd (err≢ok {e = truncated} (rw short at e))
  | inr ((head, back), split) ↦
      let (joined, measured) = split_at_checked-some k rest head back split in
      let (head_bytes, back_bytes) = AllBytes-append head back (rw joined at h) in
      let (same, bound) = to_le_bytes-from_le_bytes head head_bytes in
      let (value, after) = ok_pair {c = n} {d = tail} (rw split at e) in
      let joined' : rest ≡ to_le_bytes k n ++ tail =
        rw (measured, value, after) at (rw (sym same) at joined) in
      record {
        joined = joined';
        bound = (rw (measured, value) at bound);
        bytes = (rw after at back_bytes);
      }
]

pub record TookStr (cap : ℕ) (rest s tail : List ℕ) : Type 0 where
  pub joined : rest ≡ put_str s ++ tail
  pub text : IsText cap s
  pub bytes : AllBytes tail

checked_text-ok :
    (head tail s after : List ℕ)
    → checked_text head tail ≡ ok (s, after)
    → (is_utf8 s ≡ true) × (head ≡ s) × (tail ≡ after)
unfolding checked_text
checked_text-ok head tail s after e = elim (Bool-cases (is_utf8 head)) [
  | inl valid ↦
      let (value, left) = ok_pair {c = s} {d = after} (rw valid at e) in
      (rw value at valid, value, left)
  | inr invalid ↦ absurd (err≢ok {e = bad_utf8} (rw invalid at e))
]

split_text-ok :
    (len : ℕ) (after s tail : List ℕ)
    → (ok_or (split_at_checked len after) truncated >>= λ (p : List ℕ × List ℕ).
        checked_text p.0 p.1)
      ≡ ok (s, tail)
    → (is_utf8 s ≡ true) × (after ≡ s ++ tail) × (length s ≡ len)
split_text-ok len after s tail e = elim (Option-cases (split_at_checked len after)) [
  | inl short ↦ absurd (err≢ok {e = truncated} (rw short at e))
  | inr ((head, back), split) ↦
      let (joined, measured) = split_at_checked-some len after head back split in
      let (valid, value, left) = checked_text-ok head back s tail (rw split at e) in
      (valid, rw (value, left) at joined, rw value at measured)
]

take_text-ok :
    (cap len : ℕ) (after s tail : List ℕ)
    → take_text cap len after ≡ ok (s, tail)
    → IsText cap s × (after ≡ s ++ tail) × (length s ≡ len)
unfolding take_text
take_text-ok cap len after s tail e = elim (Bool-cases (ltb cap len)) [
  | inl long ↦ absurd (err≢ok {e = too_long} (rw long at e))
  | inr short ↦
      let (valid, joined, measured) = split_text-ok len after s tail (rw short at e) in
      ((ground (arith, short, measured), valid), joined, measured)
]

pub take_str-ok :
    (rest : List ℕ) (cap : ℕ) (s tail : List ℕ)
    → AllBytes rest
    → take_str rest cap ≡ ok (s, tail)
    → TookStr cap rest s tail
unfolding take_str put_str
take_str-ok rest cap s tail h e =
    let ((len, after), taken, e') = >>=-ok _ (take_uint 2 rest) e in
    let took = take_uint-ok 2 rest len after h taken in
    let (text, joined, measured) = take_text-ok cap len after s tail e' in
    let width : length s % 2 ^ 16 ≡ len = omega (arith, took.bound) in
    record {
      joined = (rw (width, append_assoc (to_le_bytes 2 len) s tail, sym joined) took.joined);
      text = text;
      bytes = (AllBytes-append s tail (rw joined at took.bytes)).1;
    }

pub record TookEntries (count : ℕ) (rest : List ℕ) (es : List ClipboardFileEntry) (tail : List ℕ)
    : Type 0 where
  pub joined : rest ≡ put_entries es ++ tail
  pub entries : AllEntries es
  pub measured : length es ≡ count
  pub bytes : AllBytes tail

no_entries :
    {rest tail : List ℕ} {es : List ClipboardFileEntry}
    → AllBytes rest
    → [] ≡ es
    → rest ≡ tail
    → TookEntries 0 rest es tail
unfolding put_entries
no_entries {rest = rest} h value left = record {
  joined = (rw (sym value) left);
  entries = (rw (sym value) tt);
  measured = (rw (sym value) refl);
  bytes = (rw (sym left) h);
}

more_entries :
    {count : ℕ} {rest name after : List ℕ} {size : ℕ} {after' : List ℕ}
    {es : List ClipboardFileEntry} {tail : List ℕ}
    → TookStr clipboard_max_text_bytes rest name after
    → TookUint 8 after size after'
    → TookEntries count after' es tail
    → TookEntries (suc count) rest (record { name = name; size = size } ∷ es) tail
unfolding put_entries
more_entries {name = name} {size = size} {es = es} {tail = tail} text number more = record {
  joined =
      (rw
        (
          append_assoc (put_str name) (to_le_bytes 8 size ++ put_entries es) tail,
          append_assoc (to_le_bytes 8 size) (put_entries es) tail,
          sym more.joined,
          sym number.joined,
        )
        text.joined);
  entries = ((text.text, omega (arith, number.bound)), more.entries);
  measured = (ap suc more.measured);
  bytes = more.bytes;
}

pub take_entries-ok :
    (count : ℕ) (rest : List ℕ) (es : List ClipboardFileEntry) (tail : List ℕ)
    → AllBytes rest
    → take_entries count rest ≡ ok (es, tail)
    → TookEntries count rest es tail
unfolding take_entries
take_entries-ok zero rest es tail h e =
    let (value, left) = ok_pair {c = es} {d = tail} e in no_entries h value left
take_entries-ok (suc count) rest es tail h e =
    let ((name, after), e1, f1) = >>=-ok _ (take_str rest clipboard_max_text_bytes) e in
    let text = take_str-ok rest clipboard_max_text_bytes name after h e1 in
    let ((size, after'), e2, f2) = >>=-ok _ (take_uint 8 after) f1 in
    let number = take_uint-ok 8 after size after' text.bytes e2 in
    let ((entries, left), e3, f3) = >>=-ok _ (take_entries count after') f2 in
    let more = take_entries-ok count after' entries left number.bytes e3 in
    let (value, same) = ok_pair {c = es} {d = tail} f3 in
    rw (value, same) at (more_entries text number more)
