-- ===== src/Repository/ClickHouse.antt =====
-- repository/clickhouse.go: the two saves. The driver's connection is an interface; what it stores is
-- not modelled, a call of it may fail.
use mathlib.Core.List.{append-nil, append_assoc}
use peekd.Base.{
  inr, inl, ◌⊎◌, sym, Option, none, some, List, [], ◌∷◌, ◌++◌, ◌≡◌, refl, Text, codes, ◌∙◌, ap,
}
use peekd.Base.Results.{Error, Result, ok, err, wrapped, ◌>>=◌}
use peekd.Repository.Models.{GeneralMessageHistory, SlotMessageStats}

-- driver.Conn: `Exec` with its row, and a batch.
pub record Conn : Type 1 where
  pub Batch : Type 0
  pub exec : Text → GeneralMessageHistory → Result (Unit {0})
  pub prepare_batch : Text → Result Batch
  pub append : SlotMessageStats → Batch → Result Batch
  pub send : Batch → Result (Unit {0})

module _ (conn : Conn) where
  open conn use {Batch, exec, prepare_batch, append, send}

  -- A nil pointer is `none`. The text of the query is left out: its columns are the fields of the row in
  -- the order of the record.
  unfoldable pub save_general_message_history : Option GeneralMessageHistory → Result (Unit {0})
  save_general_message_history none = err (Error.new (codes "history is nil"))
  save_general_message_history (some history) =
      wrapped (codes "failed to save general message history")
        (exec (codes "INSERT INTO general_message_histories") history)

  -- The loop over the records.
  unfoldable pub append_all : List SlotMessageStats → Batch → Result Batch
  append_all [] batch = ok batch
  append_all (stat ∷ stats) batch =
      wrapped (codes "failed to append message stats") (append stat batch) >>= λ appended.
      append_all stats appended

  unfoldable pub save_slot_message_stats_multi : List SlotMessageStats → Result (Unit {0})
  unfolding append_all
  save_slot_message_stats_multi [] = ok tt
  save_slot_message_stats_multi (stat ∷ stats) =
      wrapped (codes "failed to prepare batch")
        (prepare_batch (codes "INSERT INTO slot_message_stats"))
      >>= λ batch. append_all (stat ∷ stats) batch >>= λ full.
          wrapped (codes "failed to send batch") (send full)

  -- A driver that prepares empty batches and appends a row at the end.
  pub record IsBatching : Type 0 where
    pub rows : Batch → List SlotMessageStats
    pub prepared : (query : Text) → (b : Batch) × (prepare_batch query ≡ ok b) × (rows b ≡ [])
    pub appended :
        (stat : SlotMessageStats) (b : Batch)
        → (c : Batch) × (append stat b ≡ ok c) × (rows c ≡ rows b ++ (stat ∷ []))

  append_all-rows :
      (driver : IsBatching) (stats : List SlotMessageStats) (b : Batch)
      → (c : Batch) × (append_all stats b ≡ ok c) × (driver.rows c ≡ driver.rows b ++ stats)
  unfolding append_all
  append_all-rows driver [] b = (b, refl, sym (append-nil (driver.rows b)))
  append_all-rows driver (stat ∷ stats) b =
      let (c, e, more) = driver.appended stat b in
      let (d, f, all) = append_all-rows driver stats c in
      (
        d,
        rw (e, f) refl,
        all ∙ ap (λ r. r ++ stats) more ∙ append_assoc (driver.rows b) (stat ∷ []) stats,
      )

  -- With a driver whose batches take every row, saving records sends one batch with exactly these
  -- records in order, and fails only if sending does; no records are saved without the driver.
  pub save_slot_message_stats_multi-rows :
      (driver : IsBatching) (stats : List SlotMessageStats)
      → ((stats ≡ []) × (save_slot_message_stats_multi stats ≡ ok tt))
        ⊎ ((b : Batch) × (driver.rows b ≡ stats)
            × (save_slot_message_stats_multi stats
                ≡ wrapped (codes "failed to send batch") (send b)))
  unfolding save_slot_message_stats_multi
  save_slot_message_stats_multi-rows driver [] = inl (refl, refl)
  save_slot_message_stats_multi-rows driver (stat ∷ stats) =
      let (b, e, empty) = driver.prepared (codes "INSERT INTO slot_message_stats") in
      let (c, f, all) = append_all-rows driver (stat ∷ stats) b in
      inr (c, all ∙ ap (λ r. r ++ (stat ∷ stats)) empty, rw (e, f) refl)
