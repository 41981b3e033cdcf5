-- ===== src/Core/Device/Frames.antt =====
-- What a launch (src/core/device.cpp) does to the global memory of the device, whatever its result.
use warp_sim.Base.{
  [], ◌∷◌, zero, suc, inl, inr, subst, ℕ, zero, suc, ◌+◌, ◌-◌, ◌/◌, ◌%◌, ◌^◌, ◌==◌, ◌≡◌, inl, inr,
  refl, subst, if◌then◌else◌, Bool, true, false, not, ◌||◌, Bool-cases, Option, none, some, List,
  [], ◌∷◌, map, Result, ok, fail, >>=-eq-ok,
}
use warp_sim.Isa.Instruction.{Instruction}
use warp_sim.Asm.Program.{Program}
use warp_sim.Core.Types.{Dim2, LaneContext, LaneMask, count}
use warp_sim.Core.Alu.{Binary32}
use warp_sim.Core.Memory.{
  Space, global, shared, param, ByteMemory, BlockMemory, block_memory, block_port, store, store32,
  on_warp_access,
}
use warp_sim.Core.Warp.{Warp, Fault}
use warp_sim.Core.Warp.Step.{Stepped, StepOutcome, step}
use warp_sim.Core.Warp.Frames.{AllStoresIn, Keeps, step-Keeps}
use warp_sim.Core.Device.{
  LaunchStats, Pass, Ended, value, faulted, out_of_fuel, pass, turn, step_warp, is_waiting, prepend,
  count_outcome, make_warps, add32, fresh_launch_stats,
}
use warp_sim.Core.Memory.Analysis.{add64}
use warp_sim.Core.Device.Block.{
  Verdict, complete, release, no_progress, next_pass, verdict, unpark, add_warps, plain_fault, run,
  run_block,
}
use warp_sim.Core.Device.Launch.{
  Launched, Blocks, going, stopped, decode_words, add_memory, run_one, run_row, run_grid, finish,
  launch,
}

-- A relation on memories that the stores into the global memory keep, if W allows any.
pub record KeepsGlobal (W : Space → Type 0) (G : ByteMemory → ByteMemory → Type 0) : Type 0 where
  pub same : (g : ByteMemory) → G g g
  pub joined : (a b c : ByteMemory) → G a b → G b c → G a c
  pub stored : (g h : ByteMemory) (a v lane : ℕ) → W global → store32 g a v lane ≡ ok h → G g h

module _ (W : Space → Type 0) (G : ByteMemory → ByteMemory → Type 0) (k : KeepsGlobal W G) where
  Related : BlockMemory → BlockMemory → Type 0
  Related m n = G m.global_memory n.global_memory

  block_port-hooked :
      (m : BlockMemory) (s : Space) (b : Bool) (addresses : ℕ → ℕ) (exec : LaneMask)
      → Related m (on_warp_access m s b addresses exec)
  unfolding on_warp_access Related
  block_port-hooked m global b addresses exec = k.same m.global_memory
  block_port-hooked m shared b addresses exec = k.same m.global_memory
  block_port-hooked m param b addresses exec = k.same m.global_memory

  block_port-stored :
      (m n : BlockMemory) (s : Space) (a v lane : ℕ) → W s → store m s a v lane ≡ ok n → Related m n
  unfolding store Related
  block_port-stored m n global a v lane w h =
      let (g, e, f) =
        >>=-eq-ok (store32 m.global_memory a v lane) (λ g. ok (record m { global_memory = g })) h in
      let last : record m { global_memory = g } ≡ n = cc (f) in
      subst (λ (x : BlockMemory). G m.global_memory x.global_memory) last
        (k.stored m.global_memory g a v lane w e)
  block_port-stored m n shared a v lane w h =
      let (g, e, f) =
        >>=-eq-ok (store32 m.shared_memory a v lane) (λ g. ok (record m { shared_memory = g })) h in
      let last : record m { shared_memory = g } ≡ n = cc (f) in
      subst (λ (x : BlockMemory). G m.global_memory x.global_memory) last (k.same m.global_memory)
  block_port-stored m n param a v lane w h = cc (h)

  block_port-Keeps : Keeps block_port W Related
  unfolding Related
  block_port-Keeps = record {
    same = λ m. k.same m.global_memory;
    joined = λ a b c. k.joined a.global_memory b.global_memory c.global_memory;
    hooked = block_port-hooked;
    stored = block_port-stored;
  }

  -- The memory that a call ends with, in a fault too.
  EndsRelated : {A : Type 0} → (A → BlockMemory) → BlockMemory → Ended A → Type 0
  EndsRelated f m (value a) = Related m (f a)
  EndsRelated f m (faulted e n) = Related m n
  EndsRelated f m out_of_fuel = Unit {0}

  module _ (fp : Binary32) (program : List Instruction) (all : AllStoresIn W program) where
    turn-EndsRelated :
        (w : Warp) (m : BlockMemory) (s : LaunchStats)
        → EndsRelated (λ r. r.1) m (turn fp program w m s)
    unfolding turn step_warp EndsRelated
    turn-EndsRelated w m s = elim (Bool-cases (is_waiting w)) [
      | inl e ↦ rw (turn, e) (unfold Related in k.same m.global_memory)
      | inr e ↦ rw (turn, e) (go (step fp block_port program w m) refl)
    ]
      where
        ended :
            (r : Stepped BlockMemory) (o : Result StepOutcome Fault)
            → Related m r.memory
            → EndsRelated
                (λ (x : Warp × BlockMemory × LaunchStats). x.1)
                m
                (elim o as (λ _. Ended (Warp × BlockMemory × LaunchStats)) [
                  | fail f ↦ faulted f r.memory
                  | ok o ↦ value (r.warp, r.memory, count_outcome o r.warp s)
                ])
        ended r (fail f) h = h
        ended r (ok o) h = h

        go :
            (o : Option (Stepped BlockMemory))
            → step fp block_port program w m ≡ o
            → EndsRelated
                (λ (x : Warp × BlockMemory × LaunchStats). x.1)
                m
                (elim o as (λ _. Ended (Warp × BlockMemory × LaunchStats)) [
                  | none ↦ out_of_fuel
                  | some r ↦ elim r.outcome as (λ _. Ended (Warp × BlockMemory × LaunchStats)) [
                    | fail f ↦ faulted f r.memory
                    | ok o ↦ value (r.warp, r.memory, count_outcome o r.warp s)
                  ]
                ])
        go none e = tt
        go (some r) e =
            ended r r.outcome
              (step-Keeps block_port W Related block_port-Keeps fp program w m r all e)

    prepend-EndsRelated :
        (w : Warp) (m : BlockMemory) (e : Ended Pass)
        → EndsRelated Pass.memory m e
        → EndsRelated Pass.memory m (prepend w e)
    unfolding prepend EndsRelated
    prepend-EndsRelated w m (value p) h = h
    prepend-EndsRelated w m (faulted f n) h = h
    prepend-EndsRelated w m out_of_fuel h = tt

    EndsRelated-trans :
        {A : Type 0} (f : A → BlockMemory) (m n : BlockMemory) (e : Ended A)
        → Related m n
        → EndsRelated f n e
        → EndsRelated f m e
    unfolding EndsRelated Related
    EndsRelated-trans f m n (value a) r h =
        k.joined m.global_memory n.global_memory (f a).global_memory r h
    EndsRelated-trans f m n (faulted e o) r h =
        k.joined m.global_memory n.global_memory o.global_memory r h
    EndsRelated-trans f m n out_of_fuel r h = tt

    pass-EndsRelated :
        (ws : List Warp) (m : BlockMemory) (s : LaunchStats) (any : Bool)
        → EndsRelated Pass.memory m (pass fp program ws m s any)
    unfolding pass EndsRelated
    pass-EndsRelated [] m s any = unfold Related in k.same m.global_memory
    pass-EndsRelated (w ∷ ws) m s any =
        go (turn fp program w m s) (turn-EndsRelated w m s)
          (λ m' s' any'. pass-EndsRelated ws m' s' any')
      where
        go :
            (e : Ended (Warp × BlockMemory × LaunchStats))
            → EndsRelated (λ (x : Warp × BlockMemory × LaunchStats). x.1) m e
            → ((m' : BlockMemory) (s' : LaunchStats) (b : Bool)
                → EndsRelated Pass.memory m' (pass fp program ws m' s' b))
            → EndsRelated Pass.memory m (elim e as (λ _. Ended Pass) [
              | value (w', m', s') ↦
                  prepend w' (pass fp program ws m' s' (any || not (is_waiting w)))
              | faulted f m' ↦ faulted f m'
              | out_of_fuel ↦ out_of_fuel
            ])
        go (value (w', m', s')) h later =
            prepend-EndsRelated w' m _ (EndsRelated-trans Pass.memory m m' _ h (later m' s' _))
        go (faulted f m') h later = h
        go out_of_fuel h later = tt

    run-EndsRelated :
        (fuel : ℕ) (ws : List Warp) (m : BlockMemory) (s : LaunchStats)
        → EndsRelated Pass.memory m (run fp program fuel ws m s)
    unfolding run EndsRelated
    run-EndsRelated zero ws m s = tt
    run-EndsRelated (suc fuel) ws m s =
        go (pass fp program ws m s false) (pass-EndsRelated ws m s false)
          (λ ws' m' s'. run-EndsRelated fuel ws' m' s')
      where
        Later : Type 0
        Later =
            (ws' : List Warp) (m' : BlockMemory) (s' : LaunchStats)
            → EndsRelated Pass.memory m' (run fp program fuel ws' m' s')

        decided :
            (p : Pass) (v : Verdict)
            → Related m p.memory
            → Later
            → EndsRelated Pass.memory m (elim v as (λ _. Ended Pass) [
              | complete ↦ value p
              | release ↦
                  run fp program fuel
                    (map unpark p.warps)
                    p.memory
                    (record p.stats { barriers_completed = add64 p.stats.barriers_completed 1 })
              | no_progress ↦ faulted (plain_fault "scheduler made no progress" 0) p.memory
              | next_pass ↦ run fp program fuel p.warps p.memory p.stats
            ])
        decided p complete h later = h
        decided p release h later =
            EndsRelated-trans Pass.memory m p.memory _ h (later _ p.memory _)
        decided p no_progress h later = h
        decided p next_pass h later =
            EndsRelated-trans Pass.memory m p.memory _ h (later _ p.memory _)

        go :
            (e : Ended Pass)
            → EndsRelated Pass.memory m e
            → Later
            → EndsRelated Pass.memory m (elim e as (λ _. Ended Pass) [
              | out_of_fuel ↦ out_of_fuel
              | faulted f m' ↦ faulted f m'
              | value p ↦ elim (verdict p) as (λ _. Ended Pass) [
                | complete ↦ value p
                | release ↦
                    run fp program fuel
                      (map unpark p.warps)
                      p.memory
                      (record p.stats { barriers_completed = add64 p.stats.barriers_completed 1 })
                | no_progress ↦ faulted (plain_fault "scheduler made no progress" 0) p.memory
                | next_pass ↦ run fp program fuel p.warps p.memory p.stats
              ]
            ])
        go out_of_fuel h later = tt
        go (faulted f m') h later = h
        go (value p) h later = decided p (verdict p) h later

    run_block-EndsRelated :
        (fuel : ℕ) (m : BlockMemory) (base : LaneContext) (lanes : ℕ) (s : LaunchStats)
        → EndsRelated (λ r. r.0) m (run_block fp program fuel m base lanes s)
    unfolding run_block EndsRelated
    run_block-EndsRelated fuel m base lanes s =
        let warp_count = ((lanes + 32) % 2 ^ 32 + 2 ^ 32 - 1) % 2 ^ 32 / 32 in
        let launched = record s { warps_launched = add32 s.warps_launched warp_count } in
        after _ (run-EndsRelated fuel (make_warps warp_count 0 lanes base) m launched)
      where
        after :
            (e : Ended Pass)
            → EndsRelated Pass.memory m e
            → EndsRelated
                (λ (r : BlockMemory × LaunchStats). r.0)
                m
                (elim e as (λ _. Ended (BlockMemory × LaunchStats)) [
                  | out_of_fuel ↦ out_of_fuel
                  | faulted f m' ↦ faulted f m'
                  | value p ↦ value (p.memory, add_warps p.warps p.stats)
                ])
        after out_of_fuel h = tt
        after (faulted f m') h = h
        after (value p) h = h

    module _ (fuel shared_bytes : ℕ) (params : List ℕ) (grid block : Dim2) where
      BlocksRelated : ByteMemory → Blocks → Type 0
      BlocksRelated g (going h s) = G g h
      BlocksRelated g (stopped l) = G g l.memory

      run_one-BlocksRelated :
          (bx by : ℕ) (g : ByteMemory) (s : LaunchStats)
          → BlocksRelated g (run_one fp fuel program shared_bytes params grid block bx by g s)
      unfolding run_one BlocksRelated EndsRelated Related block_memory
      run_one-BlocksRelated bx by g s =
          after _
            (run_block-EndsRelated fuel (block_memory g shared_bytes params) _ (count block) s)
        where
          after :
              (e : Ended (BlockMemory × LaunchStats))
              → EndsRelated
                  (λ (r : BlockMemory × LaunchStats). r.0)
                  (block_memory g shared_bytes params)
                  e
              → BlocksRelated g (elim e as (λ _. Blocks) [
                | out_of_fuel ↦ stopped (record { memory = g; result = none })
                | faulted f m ↦
                    stopped (record { memory = m.global_memory; result = some (fail f) })
                | value (m, t) ↦ going m.global_memory (record t {
                  blocks_executed = add32 t.blocks_executed 1;
                  lanes_launched = add32 t.lanes_launched (count block);
                  memory = add_memory t.memory m.stats;
                })
              ])
          after out_of_fuel h = k.same g
          after (faulted f m) h = h
          after (value (m, t)) h = h

      BlocksRelated-trans :
          (g h : ByteMemory) (b : Blocks) → G g h → BlocksRelated h b → BlocksRelated g b
      unfolding BlocksRelated
      BlocksRelated-trans g h (going i s) r q = k.joined g h i r q
      BlocksRelated-trans g h (stopped l) r q = k.joined g h l.memory r q

      run_row-BlocksRelated :
          (rounds bx by : ℕ) (g : ByteMemory) (b : Blocks)
          → BlocksRelated g b
          → BlocksRelated g (run_row fp fuel program shared_bytes params grid block rounds bx by b)
      unfolding run_row
      run_row-BlocksRelated zero bx by g (going h s) r = r
      run_row-BlocksRelated zero bx by g (stopped l) r = r
      run_row-BlocksRelated (suc rounds) bx by g (stopped l) r = r
      run_row-BlocksRelated (suc rounds) bx by g (going h s) r =
          run_row-BlocksRelated rounds (bx + 1) by g _ (
            BlocksRelated-trans g h _ (unfold BlocksRelated in r) (run_one-BlocksRelated bx by h s))

      run_grid-BlocksRelated :
          (rounds by : ℕ) (g : ByteMemory) (b : Blocks)
          → BlocksRelated g b
          → BlocksRelated g (run_grid fp fuel program shared_bytes params grid block rounds by b)
      unfolding run_grid
      run_grid-BlocksRelated zero by g b r = r
      run_grid-BlocksRelated (suc rounds) by g b r =
          run_grid-BlocksRelated rounds (by + 1) g _ (run_row-BlocksRelated grid.x 0 by g b r)

      finish-related : (g : ByteMemory) (b : Blocks) → BlocksRelated g b → G g (finish b).memory
      unfolding finish BlocksRelated
      finish-related g (going h s) r = r
      finish-related g (stopped l) r = r

  -- A launch relates the memory that it finds to the one that it leaves, whatever its result, if the
  -- stores of the program's instructions are to spaces that W allows.
  pub launch-related :
      (fp : Binary32) (fuel : ℕ) (program : Program) (grid block : Dim2) (params : List ℕ)
      (g : ByteMemory)
      → ((decoded : List Instruction)
          → decode_words 0 program.words ≡ ok decoded
          → AllStoresIn W decoded)
      → G g (launch fp fuel program grid block params g).memory
  unfolding launch
  launch-related fp fuel program grid block params g all = go (decode_words 0 program.words) refl
    where
      started :
          (decoded : List Instruction) (b : Bool)
          → AllStoresIn W decoded
          → G g (
              Launched.memory (
                if b
                then record {
                  memory = g;
                  result = some (fail (plain_fault "empty grid or block" 0));
                }
                else finish (
                    run_grid fp fuel decoded program.shared_bytes params grid block grid.y 0
                      (going g fresh_launch_stats))))
      started decoded true a = k.same g
      started decoded false a =
          finish-related fp decoded a fuel program.shared_bytes params grid block g _ (
            run_grid-BlocksRelated fp decoded a fuel program.shared_bytes params grid block grid.y 0
              g (going g fresh_launch_stats) (unfold BlocksRelated in k.same g))

      go :
          (r : Result (List Instruction) Fault)
          → decode_words 0 program.words ≡ r
          → G g (
              Launched.memory (elim r as (λ _. Launched) [
                | fail f ↦ record { memory = g; result = some (fail f) }
                | ok decoded ↦
                    if count block == 0 || count grid == 0
                    then record {
                      memory = g;
                      result = some (fail (plain_fault "empty grid or block" 0));
                    }
                    else finish (
                        run_grid fp fuel decoded program.shared_bytes params grid block grid.y 0
                          (going g fresh_launch_stats))
              ]))
      go (fail f) e = k.same g
      go (ok decoded) e = started decoded (count block == 0 || count grid == 0) (all decoded e)
