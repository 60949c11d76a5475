-- ===== src/Callbacks/Sqs/Fitting.antt =====
-- The size of what playbooks/callback_plugins/sqs.py puts on the queue.
use Prim.Native.Char.{Char}
use configuration.Base.{
  ℕ, zero, suc, ◌-◌, ◌≤◌, ◌<◌, ◌⊎◌, ◌++◌, ◌≡◌, refl, true, false, not, ◌&&◌, Option, none, some,
  List, [], ◌∷◌, String, ltb, if◌then◌else◌, length, ok, All, arith, Returns, Returns->>=,
  Bool-cases, inl, inr, string_eq,
}
use configuration.Base.Script.{assign}
use configuration.Base.Script.Keeps.{Keeps, Keeps-from->>=, Keeps->>=, Keeps-when}
use configuration.Callbacks.Sqs.{
  Output, text, flag, Message, called, result_of, stats_of, Payload, Plugin, Times, Sqs, drop, last,
  clip_output, clip_if_any, clip_lines, clip_result, clip, is_result, send, see_message, payload_of,
  send_clipped, put_on_queue, names_module, send_queue_message, Notice, on_failed, on_ok,
  on_task_start, on_play_start, on_stats, notify, notify_all,
}

length-drop {ℓ} : {A : Type ℓ} (n : ℕ) (xs : List A) → length (drop n xs) ≡ length xs - n
length-drop zero xs = omega arith
length-drop (suc n) [] = omega arith
length-drop (suc n) (x ∷ xs) = omega (arith, length-drop n xs)

length-last {ℓ} : {A : Type ℓ} (n : ℕ) (xs : List A) → n < length xs → length (last n xs) ≡ n
length-last n xs long = omega (arith, length-drop (length xs - n) xs)

-- "(clipping) ... "
abbrev pub mark : List Char
mark = "(" ∷ "c" ∷ "l" ∷ "i" ∷ "p" ∷ "p" ∷ "i" ∷ "n" ∷ "g" ∷ ")" ∷ " " ∷ "." ∷ "." ∷ "." ∷ " " ∷ []

-- At most n items, or n of them behind a mark.
abbrev pub IsClipped {ℓ} : {A : Type ℓ} → List A → ℕ → List A → Type ℓ
IsClipped {A = A} front n xs =
    (length xs ≤ n) ⊎ ((kept : List A) × (xs ≡ front ++ kept) × (length kept ≡ n))

-- At most 1000 characters, or that many behind the mark of clipping; no truth value but false.
abbrev pub IsShort : Option Output → Type 0
IsShort none = Unit
IsShort (some (text characters)) = IsClipped mark 1000 characters
IsShort (some (flag b)) = b ≡ false

-- At most 20 lines, or that many behind the mark of clipping.
abbrev pub IsBrief : Option (List String) → Type 0
IsBrief none = Unit
IsBrief (some lines) = IsClipped ("(clipping) ... " ∷ []) 20 lines

abbrev pub FitsMessage : Message → Type 0
FitsMessage (result_of res) = IsShort res.stderr × IsShort res.stdout × IsBrief res.stdout_lines
FitsMessage msg = Unit

abbrev pub Fits : Payload → Type 0
Fits payload = FitsMessage payload.msg

clip-IsClipped {ℓ} :
    {A : Type ℓ} (front : List A) (n : ℕ) (xs : List A)
    → IsClipped front n (if ltb n (length xs) then front ++ last n xs else xs)
clip-IsClipped front n xs = elim (Bool-cases (ltb n (length xs))) [
  | inl long ↦ rw long (inr (last n xs, refl, length-last n xs (ground arith)))
  | inr short ↦ rw short (inl (ground arith))
]

abbrev IsShortOutput : Output → Type 0
IsShortOutput output = IsShort (some output)

clip_output-IsShort : (output : Output) → Returns IsShortOutput (clip_output output)
unfolding clip_output
clip_output-IsShort (text characters) = clip-IsClipped mark 1000 characters
clip_output-IsShort (flag true) = tt
clip_output-IsShort (flag false) = refl

clip_if_any-IsShort : (output : Option Output) → Returns IsShort (clip_if_any output)
clip_if_any-IsShort none = tt
clip_if_any-IsShort (some output) =
    Returns->>= IsShortOutput IsShort (clip_output output) _ (clip_output-IsShort output)
      (λ clipped h. h)

clip_lines-IsBrief : (lines : Option (List String)) → IsBrief (clip_lines lines)
unfolding clip_lines
clip_lines-IsBrief none = tt
clip_lines-IsBrief (some lines) = clip-IsClipped ("(clipping) ... " ∷ []) 20 lines

clip-Fits : (msg : Message) → Returns FitsMessage (clip msg)
unfolding clip_result
clip-Fits (called name) = tt
clip-Fits (stats_of stats) = tt
clip-Fits (result_of res) =
    Returns->>= (λ clipped. FitsMessage (result_of clipped)) FitsMessage (clip_result res) _
      (Returns->>= IsShort _ (clip_if_any res.stderr) _ (clip_if_any-IsShort res.stderr)
        (λ stderr short.
          Returns->>= IsShort _ (clip_if_any res.stdout) _ (clip_if_any-IsShort res.stdout)
            (λ stdout brief. (short, brief, clip_lines-IsBrief res.stdout_lines))))
      (λ clipped h. h)

abbrev nothing : Plugin → Unit {0}
nothing self = tt

module _ (sqs : Sqs) where
  send_queue_message-Fits :
      (msg : Message) (msg_type : String) (t : Times)
      → Returns FitsMessage (if is_result msg_type then clip msg else ok msg)
      → Keeps Fits nothing (send_queue_message sqs msg msg_type t)
  unfolding send_queue_message
  send_queue_message-Fits msg msg_type t h self =
      Keeps-when Fits nothing self.enable_sqs (put_on_queue sqs msg msg_type t self)
        (Keeps->>= Fits nothing (assign (see_message msg_type t.seen))
          (λ _. send_clipped sqs msg msg_type t self) (λ s. (refl, tt))
          (λ _.
            Keeps-from->>= Fits nothing FitsMessage
              (if is_result msg_type then clip msg else ok msg)
              (λ clipped. send sqs (payload_of msg_type clipped t self)) h
              (λ clipped fits s. (refl, (fits, tt)))))
        self

  notify-Fits : (notice : Notice) (t : Times) → Keeps Fits nothing (notify sqs notice t)
  notify-Fits (on_failed res ignore_errors) t self =
      Keeps-when Fits nothing (self.enable_sqs && not ignore_errors) _
        (send_queue_message-Fits (result_of res) "FAILURE" t (clip-Fits (result_of res))) self
  notify-Fits (on_ok res) t self =
      Keeps-when Fits nothing (self.enable_sqs && names_module res.invocation) _
        (send_queue_message-Fits (result_of res) "OK" t (clip-Fits (result_of res))) self
  notify-Fits (on_task_start name) t self =
      Keeps-when Fits nothing self.enable_sqs _ (send_queue_message-Fits (called name) "TASK" t tt)
        self
  notify-Fits (on_play_start pattern) t self =
      Keeps-when Fits nothing self.enable_sqs _
        (send_queue_message-Fits (called pattern) "START" t tt) self
  notify-Fits (on_stats counts now) t self =
      Keeps-when Fits nothing self.enable_sqs _ (send_queue_message-Fits (stats_of _) "STATS" t tt)
        self

  notify_all-Keeps : (notices : List (Notice × Times)) → Keeps Fits nothing (notify_all sqs notices)
  unfolding notify_all
  notify_all-Keeps [] self = (refl, tt)
  notify_all-Keeps ((notice, t) ∷ notices) self =
      Keeps->>= Fits nothing (notify sqs notice t) _ (notify-Fits notice t)
        (λ _. notify_all-Keeps notices) self

  -- Whatever Ansible tells the plugin, each output in a payload that it sends has at most 1000
  -- characters or is that many behind the mark of clipping, each list of lines has at most 20 or is
  -- that many behind the mark, and no output is the truth value `True`.
  pub notify_all-Fits :
      (notices : List (Notice × Times)) (self : Plugin) → All Fits (notify_all sqs notices self).2
  notify_all-Fits notices self = (notify_all-Keeps notices self).1
