-- ===== src/Core/Warp/Frames.antt =====
-- What `Warp::step` (src/core/warp.cpp) does to the memory behind its port: a relation that every store
-- of the program and the analyzer's hook keep is kept by a step, a fault in the middle of it included.
use mathlib.Core.Option.{some-injective}
use warp_sim.Base.{
  ap, ◌∙◌, ℕ, zero, suc, ◌+◌, ◌*◌, ◌==◌, ◌≡◌, inl, inr, refl, subst, sym, Bool, true, false,
  if◌then◌else◌, Bool-cases, Option, none, some, List, length, get_elem?, Result, ok, fail,
  >>=-eq-ok,
}
use warp_sim.Isa.Opcode.{Opcode}
use warp_sim.Isa.Instruction.{Instruction}
use warp_sim.Core.Types.{LaneMask, has_lane}
use warp_sim.Core.Registers.{RegisterFile, read, write}
use warp_sim.Core.Alu.{Binary32}
use warp_sim.Core.Memory.{Space, AccessFault, MemoryPort}
use warp_sim.Core.Warp.{Warp, Next, no_lanes, issue, next_instruction, resolve_stack, retire}
use warp_sim.Core.Warp.Step.{
  Stepped, done, space_of, is_store, Accessed, access_lane, access_lanes, lane_accesses,
  lane_address, finish_access, memory_access, execute, exec_mask, issue_instruction, step,
  step_from,
}

-- The stores of an instruction go to spaces that W allows.
abbrev StoresIn : (Space → Type 0) → Instruction → Type 0
StoresIn W i = is_store i.opcode ≡ true → W (space_of i.opcode)

abbrev pub AllStoresIn : (Space → Type 0) → List Instruction → Type 0
AllStoresIn W program = (k : ℕ) (i : Instruction) → get_elem? program k ≡ some i → StoresIn W i

-- What a port keeps: a preorder on its states.
pub record Keeps {M : Type 0} (port : MemoryPort M) (W : Space → Type 0) (R : M → M → Type 0)
    : Type 0 where
  pub same : (m : M) → R m m
  pub joined : (a b c : M) → R a b → R b c → R a c
  pub hooked :
      (m : M) (s : Space) (b : Bool) (addresses : ℕ → ℕ) (exec : LaneMask)
      → R m (port.on_warp_access m s b addresses exec)
  pub stored : (m n : M) (s : Space) (a v lane : ℕ) → W s → port.store m s a v lane ≡ ok n → R m n

module _ {M : Type 0} (port : MemoryPort M) (W : Space → Type 0) (R : M → M → Type 0)
    (k : Keeps port W R) where
  access_lane-Keeps :
      (i : Instruction) (addresses : ℕ → ℕ) (lane : ℕ) (rf rf' : RegisterFile) (m m' : M)
      → StoresIn W i
      → access_lane port i addresses lane rf m ≡ ok (rf', m')
      → R m m'
  unfolding access_lane
  access_lane-Keeps i addresses lane rf rf' m m' w h = elim (Bool-cases (is_store i.opcode)) [
    | inl s ↦
        let (n, e, f) =
          >>=-eq-ok (port.store m (space_of i.opcode) (addresses lane) (read rf lane i.src1) lane)
            (λ n. ok (rf, n)) (rw s at h) in
        let last : n ≡ m' = cc (f) in
        subst (λ x. R m x) last
          (k.stored m n (space_of i.opcode) (addresses lane) (read rf lane i.src1) lane (w s) e)
    | inr s ↦
        let (v, e, f) =
          >>=-eq-ok (port.load m (space_of i.opcode) (addresses lane) lane)
            (λ v. ok (write rf lane i.dst v, m)) (rw s at h) in
        let last : m ≡ m' = cc (f) in subst (λ x. R m x) last (k.same m)
  ]

  access_lanes-Keeps :
      (i : Instruction) (addresses : ℕ → ℕ) (rounds lane : ℕ) (exec : LaneMask) (rf : RegisterFile)
      (m : M)
      → StoresIn W i
      → R m (access_lanes port i addresses rounds lane exec rf m).memory
  unfolding access_lanes
  access_lanes-Keeps i addresses zero lane exec rf m w = k.same m
  access_lanes-Keeps i addresses (suc rounds) lane exec rf m w =
      go (if has_lane exec lane then access_lane port i addresses lane rf m else ok (rf, m)) refl
        (λ rf' m'. access_lanes-Keeps i addresses rounds (lane + 1) exec rf' m' w)
    where
      one :
          (b : Bool) (rf' : RegisterFile) (m' : M)
          → (if b then access_lane port i addresses lane rf m else ok (rf, m)) ≡ ok (rf', m')
          → R m m'
      one true rf' m' e = access_lane-Keeps i addresses lane rf rf' m m' w e
      one false rf' m' e = let last : m ≡ m' = cc (e) in subst (λ x. R m x) last (k.same m)

      go :
          (r : Result (RegisterFile × M) AccessFault)
          → (if has_lane exec lane then access_lane port i addresses lane rf m else ok (rf, m)) ≡ r
          → ((rf' : RegisterFile) (m' : M)
              → R m' (access_lanes port i addresses rounds (lane + 1) exec rf' m').memory)
          → R m (
              Accessed.memory (elim r as (λ _. Accessed M) [
                | ok (rf', m') ↦ access_lanes port i addresses rounds (lane + 1) exec rf' m'
                | fail f ↦ record {
                  registers = rf;
                  memory = m;
                  failure =
                      some (record { message = f.message; lane = lane; address = addresses lane });
                }
              ]))
      go (ok (rf', m')) e later = k.joined m m' _ (one (has_lane exec lane) rf' m' e) (later rf' m')
      go (fail f) e later = k.same m

  finish_access-memory :
      (fp : Binary32) (f : Option AccessFault) (w : Warp) (m : M)
      → (finish_access fp port f w m).memory ≡ m
  unfolding finish_access
  finish_access-memory fp none w m = refl
  finish_access-memory fp (some f) w m = refl

  memory_access-Keeps :
      (fp : Binary32) (i : Instruction) (exec : LaneMask) (w : Warp) (m : M)
      → StoresIn W i
      → R m (memory_access fp port i exec w m).memory
  unfolding memory_access lane_accesses
  memory_access-Keeps fp i exec w m s =
      let addresses = lane_address i exec w.state.registers in
      let observed =
        if exec == 0
        then m
        else port.on_warp_access m (space_of i.opcode) (is_store i.opcode) addresses exec in
      subst (λ x. R m x)
        (sym (
          finish_access-memory fp (lane_accesses fp port i exec w m).failure _
            (lane_accesses fp port i exec w m).memory))
        (k.joined m observed _ (watched (exec == 0) addresses)
          (access_lanes-Keeps i addresses 32 0 exec w.state.registers observed s))
    where
      watched :
          (b : Bool) (addresses : ℕ → ℕ)
          → R m (
              if b
              then m
              else port.on_warp_access m (space_of i.opcode) (is_store i.opcode) addresses exec)
      watched true addresses = k.same m
      watched false addresses = k.hooked m (space_of i.opcode) (is_store i.opcode) addresses exec

  execute-Keeps :
      (fp : Binary32) (op : Opcode) (i : Instruction) (exec : LaneMask) (w : Warp) (m : M)
      → StoresIn W i
      → R m (execute fp port op i exec w m).memory
  unfolding execute
  execute-Keeps fp Opcode.bra i exec w m s = k.same m
  execute-Keeps fp Opcode.exit i exec w m s = k.same m
  execute-Keeps fp Opcode.bar_sync i exec w m s =
      elim (Bool-cases (w.state.active == w.state.live)) [
        | inl e ↦ rw (execute, e) (k.same m)
        | inr e ↦ rw (execute, e) (k.same m)
      ]
  execute-Keeps fp Opcode.ld_global i exec w m s = memory_access-Keeps fp i exec w m s
  execute-Keeps fp Opcode.st_global i exec w m s = memory_access-Keeps fp i exec w m s
  execute-Keeps fp Opcode.ld_shared i exec w m s = memory_access-Keeps fp i exec w m s
  execute-Keeps fp Opcode.st_shared i exec w m s = memory_access-Keeps fp i exec w m s
  execute-Keeps fp Opcode.ld_param i exec w m s = memory_access-Keeps fp i exec w m s
  execute-Keeps fp _ i exec w m s = k.same m

  next_instruction-in :
      (program : List Instruction) (fuel : ℕ) (w w' : Warp) (i : Instruction)
      → next_instruction fuel program w ≡ some (issue w' i)
      → (n : ℕ) × (get_elem? program n ≡ some i)
  unfolding next_instruction
  next_instruction-in program zero w w' i h = cc (h)
  next_instruction-in program (suc fuel) w w' i h =
      go (resolve_stack w) h (λ v e. next_instruction-in program fuel v w' i e)
    where
      Again : Type 0
      Again =
          (v : Warp)
          → next_instruction fuel program v ≡ some (issue w' i)
          → (n : ℕ) × (get_elem? program n ≡ some i)

      fetched :
          (v : Warp) (o : Option Instruction)
          → get_elem? program v.state.pc ≡ o
          → (elim o as (λ _. Option Next) [
            | some j ↦ some (issue v j)
            | none ↦
                next_instruction fuel program (record v { state = retire v.state.active v.state })
          ])
            ≡ some (issue w' i)
          → Again
          → (n : ℕ) × (get_elem? program n ≡ some i)
      fetched v (some j) e h again = let same : j ≡ i = cc (h) in (v.state.pc, e ∙ ap some same)
      fetched v none e h again = again _ h

      go :
          (o : Option (Bool × Warp))
          → (elim o as (λ _. Option Next) [
            | none ↦ none
            | some (false, v) ↦ some (no_lanes v)
            | some (true, v) ↦ elim (get_elem? program v.state.pc) as (λ _. Option Next) [
              | some j ↦ some (issue v j)
              | none ↦
                  next_instruction fuel program (record v { state = retire v.state.active v.state })
            ]
          ])
            ≡ some (issue w' i)
          → Again
          → (n : ℕ) × (get_elem? program n ≡ some i)
      go none h again = cc (h)
      go (some (false, v)) h again = cc (h)
      go (some (true, v)) h again = fetched v (get_elem? program v.state.pc) refl h again

  -- A step keeps the relation, whatever its outcome.
  pub step-Keeps :
      (fp : Binary32) (program : List Instruction) (w : Warp) (m : M) (r : Stepped M)
      → AllStoresIn W program
      → step fp port program w m ≡ some r
      → R m r.memory
  unfolding step step_from issue_instruction
  step-Keeps fp program w m r all h =
      go (next_instruction (2 * length w.state.stack + 2) program w) refl h
    where
      go :
          (o : Option Next)
          → next_instruction (2 * length w.state.stack + 2) program w ≡ o
          → step_from fp port o m ≡ some r
          → R m r.memory
      go none e h = cc (h)
      go (some (no_lanes v)) e h =
          let same : record { warp = v; memory = m; outcome = ok done } ≡ r =
            some-injective _ _ h in
          subst (λ (x : Stepped M). R m x.memory) same (k.same m)
      go (some (issue v i)) e h =
          let (n, at) = next_instruction-in program _ w v i e in
          let exec = exec_mask i v.state in
          subst (λ (x : Stepped M). R m x.memory) (some-injective _ _ h)
            (execute-Keeps fp i.opcode i exec
              (record v { last_exec = exec; last_opcode = i.opcode }) m (all n i at))
