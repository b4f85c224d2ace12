-- ===== src/ByteArray/Cut.antt =====
-- The blocks before `m_cur`, and those from it on, where a position lies in its block.
use mnser.Common.{ℕ, ◌+◌, ◌-◌, ◌*◌, ◌%◌, ◌≤◌, ◌<◌, ◌++◌, ◌≡◌}
use mnser.Common.{ap, sym, ◌∙◌, arith, length, take, drop, ltb, max}
use mnser.Common.{if◌then◌else◌, length-append, length-take, length-drop, take-append-drop}
use mnser.Common.{All-take}
use mnser.ByteArray.{ByteArray}
use mnser.ByteArray.Blocks.{flat, flat-append, length-flat, Block, Lands}
use mnser.ByteArray.Valid.{Valid, mul_cancel, length-flat_capacity, Lands-mod}

-- The blocks before and from `m_cur`, and the offset of the position behind the former.
pub record Cut (a : ByteArray) (p : ℕ) : Type 0 where
  pub off : ℕ
  pub off_mod : p % a.base_size ≡ off
  pub off-lt : off < a.base_size
  pub front : length (flat (take a.cur a.nodes)) + off ≡ p
  pub front_count : length (take a.cur a.nodes) ≡ a.cur
  pub whole : flat a.nodes ≡ flat (take a.cur a.nodes) ++ flat (drop a.cur a.nodes)
  pub back : length (flat (drop a.cur a.nodes)) + a.cur * a.base_size ≡ a.capacity
  pub back_pos : 0 < length (drop a.cur a.nodes)

pub cut :
    (a : ByteArray) (p : ℕ) → Valid a → Lands a.base_size a.cur p → a.cur < length a.nodes → Cut a p
cut a p v l h =
    let (e, small) =
      Lands-mod a.base_size a.cur p (p - a.cur * a.base_size) v.positive l (omega (arith, l)) in
    record {
      off = p - a.cur * a.base_size;
      off_mod = e;
      off-lt = small;
      front = omega (arith, front, l);
      front_count = count;
      whole = whole;
      back = omega (
        arith,
        front,
        ap length whole,
        length-append (flat (take a.cur a.nodes)) (flat (drop a.cur a.nodes)),
        length-flat_capacity a v,
      );
      back_pos = omega (arith, length-drop a.cur a.nodes);
    }
  where
    count : length (take a.cur a.nodes) ≡ a.cur
    count = length-take a.cur a.nodes ∙ omega arith

    front : length (flat (take a.cur a.nodes)) ≡ a.cur * a.base_size
    front =
        length-flat a.base_size _ (All-take (Block a.base_size) a.cur a.nodes v.blocks)
        ∙ ap (λ t. t * a.base_size) count

    whole : flat a.nodes ≡ flat (take a.cur a.nodes) ++ flat (drop a.cur a.nodes)
    whole =
        ap flat (sym (take-append-drop a.cur a.nodes))
        ∙ flat-append (take a.cur a.nodes) (drop a.cur a.nodes)

pub at_end : (k m base : ℕ) → m * base < k * base + base → m ≤ k
at_end k m base h = grind arith

pub cur-lt : (a : ByteArray) → Valid a → a.position < a.capacity → a.cur < length a.nodes
cur-lt a v h = mul_cancel a.cur (length a.nodes) a.base_size (omega (arith, v.lands, v.allocated))

pub size-max : (s e : ℕ) → max s e ≡ (if ltb s e then e else s)
size-max s e = ground arith

pub length-front :
    (a : ByteArray) (p : ℕ)
    → Valid a
    → Cut a p
    → length (flat (take a.cur a.nodes)) ≡ a.cur * a.base_size
length-front a p v c =
    length-flat a.base_size _ (All-take (Block a.base_size) a.cur a.nodes v.blocks)
    ∙ ap (λ t. t * a.base_size) c.front_count
