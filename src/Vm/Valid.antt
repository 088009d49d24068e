-- ===== src/Vm/Valid.antt =====
-- The invariant of the interpreter's state, and what it means that a method keeps it: the state is
-- valid after the method, whether it succeeds or fails, and the method neither reports a bug of the
-- interpreter nor stops the host.
pub mod Handlers
pub mod Stack
pub mod Access
pub mod Push
pub mod Charged
pub mod Run
use fuel_vm.Reg
use fuel_vm.Prelude.{
  ℕ, ◌≤◌, ◌<◌, ◌≡◌, refl, ◌≢◌, Bool, true, false, Option, none, some, length, word_max, arith,
  if◌then◌else◌,
}
use fuel_vm.Outcome.{Error, Result, ok, err, panic, bug, crash, PanicReason}
use fuel_vm.Memory.Valid
use fuel_vm.Memory.Valid.{byte}
use fuel_vm.Vm.{Vm, Action, ◌>>=◌, ◌>>◌, pure, raise, raise_if, from_option, reg, set_reg}

pub record IsValid (vm : Vm) : Type 0 where
  pub words : (r : ℕ) → vm.registers r ≤ word_max
  pub zero_reg : vm.registers Reg.zero ≡ 0
  pub one_reg : vm.registers Reg.one ≡ 1
  pub memory : Valid.IsValid vm.memory
  pub octets : (j b : ℕ) → byte vm.memory j ≡ some b → b < 256
  pub heap_pointer : vm.registers Reg.hp ≡ vm.memory.hp
  pub stack_grown : vm.registers Reg.sp ≤ length vm.memory.stack
  pub stack_order : vm.registers Reg.ssp ≤ vm.registers Reg.sp
  pub gas_order : vm.registers Reg.cgas ≤ vm.registers Reg.ggas

abbrev pub Post : {A : Type 0} → (A → Type 0) → Result A → Type 0
Post P (ok a) = P a
Post P (err (panic reason)) = Unit
Post P (err (bug variant)) = ⊥
Post P (err crash) = ⊥

-- `m` keeps the invariant, and a value that it returns satisfies `P`.
pub record Runs {A : Type 0} (P : A → Type 0) (m : Action A) : Type 0 where
  pub keeps : (vm : Vm) → IsValid vm → IsValid (m vm).1
  pub post : (vm : Vm) → IsValid vm → Post P (m vm).0

abbrev pub Keeps : Action (Unit {0}) → Type 0
Keeps = Runs (λ _. Unit)

module _ {A B : Type 0} (P : A → Type 0) (Q : B → Type 0) where
  bind_result :
      (f : A → Action B) (r : Result A) (vm : Vm)
      → IsValid vm
      → Post P r
      → ((a : A) → P a → Runs Q (f a))
      → let (r', vm') = ((λ _. (r, vm)) >>= f) vm in IsValid vm' × Post Q r'
  bind_result f (ok a) vm v p k = ((k a p).keeps vm v, (k a p).post vm v)
  bind_result f (err (panic reason)) vm v p k = (v, tt)
  bind_result f (err (bug variant)) vm v p k = absurd p
  bind_result f (err crash) vm v p k = absurd p

pub Runs-bind :
    {A B : Type 0} {P : A → Type 0} {Q : B → Type 0} {m : Action A} {f : A → Action B}
    → Runs P m
    → ((a : A) → P a → Runs Q (f a))
    → Runs Q (m >>= f)
Runs-bind {P = P} {Q = Q} {m = m} {f = f} h k = record {
  keeps = λ vm v. (bind_result P Q f (m vm).0 (m vm).1 (h.keeps vm v) (h.post vm v) k).0;
  post = λ vm v. (bind_result P Q f (m vm).0 (m vm).1 (h.keeps vm v) (h.post vm v) k).1;
}

pub Runs-then :
    {B : Type 0} {Q : B → Type 0} {m : Action (Unit {0})} {k : Action B}
    → Keeps m
    → Runs Q k
    → Runs Q (m >> k)
Runs-then h k = Runs-bind h (λ _ _. k)

abbrev pub IsWord : ℕ → Type 0
IsWord w = w ≤ word_max

pub reg-Runs : (r : ℕ) → Runs IsWord (reg r)
reg-Runs r = record { keeps = λ vm v. v; post = λ vm v. v.words r }

pub pure-Runs : {A : Type 0} {P : A → Type 0} {a : A} → P a → Runs P (pure a)
pure-Runs h = record { keeps = λ vm v. v; post = λ vm v. h }

pub raise-Runs :
    {A : Type 0} {P : A → Type 0} (reason : PanicReason) → Runs P (raise (panic reason))
raise-Runs reason = record { keeps = λ vm v. v; post = λ vm v. tt }

pub raise_if-Runs :
    (b : Bool) (reason : PanicReason) → Runs (λ _. b ≡ false) (raise_if b (panic reason))
raise_if-Runs true reason = record { keeps = λ vm v. v; post = λ vm v. tt }
raise_if-Runs false reason = record { keeps = λ vm v. v; post = λ vm v. refl }

pub from_option-Runs :
    {A : Type 0} (o : Option A) (reason : PanicReason)
    → Runs (λ a. o ≡ some a) (from_option o (panic reason))
from_option-Runs none reason = record { keeps = λ vm v. v; post = λ vm v. tt }
from_option-Runs (some a) reason = record { keeps = λ vm v. v; post = λ vm v. refl }

pub if-Runs :
    {A : Type 0} {P : A → Type 0} (b : Bool) {m n : Action A}
    → Runs P m
    → Runs P n
    → Runs P (if b then m else n)
if-Runs true h k = h
if-Runs false h k = k

-- A register that no part of the invariant but its range speaks of.
abbrev pub Free : ℕ → Type 0
Free r =
    (r ≢ Reg.zero)
    × (r ≢ Reg.one)
    × (r ≢ Reg.ssp)
    × (r ≢ Reg.sp)
    × (r ≢ Reg.hp)
    × (r ≢ Reg.ggas)
    × (r ≢ Reg.cgas)

set_reg-IsValid : (r w : ℕ) (vm : Vm) → Free r → IsWord w → IsValid vm → IsValid (set_reg r w vm).1
set_reg-IsValid r w vm f h v = record {
  words = λ i. ground (arith, v.words i);
  zero_reg = ground arith;
  one_reg = ground arith;
  memory = v.memory;
  octets = v.octets;
  heap_pointer = ground arith;
  stack_grown = ground arith;
  stack_order = ground arith;
  gas_order = ground arith;
}

pub set_reg-Keeps : (r w : ℕ) → Free r → IsWord w → Keeps (set_reg r w)
set_reg-Keeps r w f h = record { keeps = λ vm v. set_reg-IsValid r w vm f h v; post = λ vm v. tt }
