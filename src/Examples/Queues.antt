-- ===== src/Examples/Queues.antt =====
-- An application with its queues in lists, which marks and resets items as test/test.c does, and its
-- promises.
use osdlp.Common.{
  ℕ, ◌≡◌, refl, ◌⊎◌, inl, inr, ℤ, pos, negsuc, Bool, true, false, List, [], ◌∷◌, ◌++◌, Option, none,
  some, All, All-append, is_neg, if◌then◌else◌, ◌==◌, ◌&&◌, arith,
}
use osdlp.Tc.Types.{TransferFrame, FopConfig, type_a, type_b}
use osdlp.Cop.Host.{Host, QueueItem}
use osdlp.Cop.Acked.{SentQueue}
use osdlp.Cop.Table.Lockout.{CanPurge}
use osdlp.Cop.Serves.{Fits, Preserves, PreservesItem, Fills, HeadUnmarked, Serves}

pub record Queues : Type 0 where
  pub wait : List (TransferFrame FopConfig)
  pub sent : List QueueItem
  pub out : List (List ℕ)

abbrev is_empty : {A : Type 0} → List A → Bool
is_empty [] = true
is_empty (x ∷ xs) = false

abbrev first : {A : Type 0} → List A → ℤ × Option A
first [] = (negsuc 0, none)
first (x ∷ xs) = (pos 0, some x)

abbrev others : {A : Type 0} → List A → List A
others [] = []
others (x ∷ xs) = xs

-- The marks of all items of a kind
abbrev mark : ℕ → ℕ → List QueueItem → List QueueItem
mark kind flag [] = []
mark kind flag (x ∷ xs) =
    (if x.kind == kind then record x { rt_flag = flag } else x) ∷ mark kind flag xs

-- The mark of the first item, if it is a command
abbrev mark_first : List QueueItem → List QueueItem
mark_first [] = []
mark_first (x ∷ xs) = (if x.kind == type_b then record x { rt_flag = 1 } else x) ∷ xs

-- The first item with that number loses its mark.
abbrev unmark : ℕ → List QueueItem → ℤ × List QueueItem
unmark n [] = (negsuc 0, [])
unmark n (x ∷ xs) =
    let later = unmark n xs in
    if x.seq_num == n then (pos 0, record x { rt_flag = 0 } ∷ xs) else (later.0, x ∷ later.1)

abbrev marked : List QueueItem → List QueueItem
marked [] = []
marked (x ∷ xs) = if (x.kind == type_a) && (x.rt_flag == 1) then x ∷ marked xs else marked xs

abbrev pub list_host : Host Queues
list_host = record {
  wait_queue_enqueue = λ vcid tf q. (pos 0, record q { wait = q.wait ++ (tf ∷ []) });
  wait_queue_dequeue =
      λ vcid q. ((first q.wait).0, (first q.wait).1, record q { wait = others q.wait });
  wait_queue_empty = λ vcid q. is_empty q.wait;
  wait_queue_clear = λ vcid q. (pos 0, record q { wait = [] });
  sent_queue_enqueue = λ vcid item q. (pos 0, record q { sent = q.sent ++ (item ∷ []) });
  sent_queue_dequeue =
      λ vcid q. ((first q.sent).0, (first q.sent).1, record q { sent = others q.sent });
  sent_queue_empty = λ vcid q. is_empty q.sent;
  sent_queue_clear = λ vcid q. (pos 0, record q { sent = [] });
  sent_queue_head = λ vcid q. ((first q.sent).0, (first q.sent).1, q);
  tx_queue_full = λ vcid q. false;
  tx_queue_enqueue = λ vcid fdu q. (pos 0, record q { out = q.out ++ (fdu ∷ []) });
  timer_start = λ vcid q. (pos 0, q);
  timer_cancel = λ vcid q. (pos 0, q);
  cancel_lower_ops = λ q. (pos 0, q);
  mark_ad_as_rt = λ vcid q. (pos 0, record q { sent = mark type_a 1 q.sent });
  mark_bc_as_rt = λ vcid q. (pos 0, record q { sent = mark_first q.sent });
  reset_rt_frame = λ vcid item q.
      ((unmark item.seq_num q.sent).0, record q { sent = (unmark item.seq_num q.sent).1 });
  get_first_ad_rt_frame = λ vcid q. ((first (marked q.sent)).0, (first (marked q.sent)).1, q);
}

-- Every frame that waits has its data, of at most six bytes.
abbrev pub AllFit : Queues → Type 0
AllFit q = All (λ tf. Fits 6 tf.frame_data) q.wait

first_fits :
    (waits : List (TransferFrame FopConfig))
    → All (λ tf. Fits 6 tf.frame_data) waits
    → is_empty waits ≡ false
    → (tf : TransferFrame FopConfig) × ((first waits).1 ≡ some tf)
      × Fits 6 tf.frame_data
      × All (λ tf. Fits 6 tf.frame_data) (others waits)
first_fits [] ok e = absurd (ground arith)
first_fits (x ∷ waits) ok e = (x, refl, ok.0, ok.1)

first_filled :
    {A : Type 0} (xs : List A) → (is_neg (first xs).0 ≡ true) ⊎ ((a : A) × ((first xs).1 ≡ some a))
first_filled [] = inl refl
first_filled (x ∷ xs) = inr (x, refl)

first_unmarked :
    (xs : List QueueItem) (item found : QueueItem)
    → (first xs).1 ≡ some item
    → (first (unmark item.seq_num xs).1).1 ≡ some found
    → ¬ (found.rt_flag ≡ 1)
first_unmarked [] item found e e' = absurd (ground arith)
first_unmarked (x ∷ xs) item found e e' = ground arith

pub list_host-Serves : Serves list_host AllFit 6
unfolding Preserves PreservesItem Fills HeadUnmarked
list_host-Serves = record {
  wait_queue_enqueue = λ tf fits vcid q ok. All-append q.wait (tf ∷ []) _ ok (fits, tt);
  wait_queue_dequeue = λ vcid q ok e. first_fits q.wait ok e;
  wait_queue_clear = λ vcid q ok. tt;
  sent_queue_enqueue = λ item vcid q ok. ok;
  sent_queue_dequeue = λ vcid q ok. ok;
  sent_queue_clear = λ vcid q ok. ok;
  sent_queue_head = λ vcid q ok. (first_filled q.sent, ok);
  tx_queue_enqueue = λ fdu vcid q ok. ok;
  timer_start = λ vcid q ok. ok;
  timer_cancel = λ vcid q ok. ok;
  cancel_lower_ops = λ vcid q ok. ok;
  mark_ad_as_rt = λ vcid q ok. ok;
  mark_bc_as_rt = λ vcid q ok. ok;
  reset_rt_frame = λ item vcid q ok. ok;
  head_stays = λ vcid q ok. refl;
  tx_keeps_head = λ fdu vcid q ok. refl;
  reset_unmarks_head = λ item vcid q ok e done found. first_unmarked q.sent item found e;
  get_first_ad_rt_frame = λ vcid q ok. (first_filled (marked q.sent), ok);
}

pub list_host-SentQueue : SentQueue list_host (λ q. q.sent)
list_host-SentQueue = record {
  no_head = λ vcid q e. rw e refl;
  head = λ vcid q item rest e. rw e (refl, refl, refl);
  dequeue = λ vcid q item rest e. rw e (refl, refl);
}

pub list_host-CanPurge : CanPurge list_host
list_host-CanPurge = record {
  timer_cancel = λ vcid q. refl;
  wait_queue_clear = λ vcid q. refl;
  sent_queue_clear = λ vcid q. refl;
}
