-- ===== src/Bsp/Usart3.antt =====
-- USART3, src/bsp/f756zg/usart3.c: its start, its interrupt, and the bytes that go to the transmit
-- register, in their order. The wait for an empty transmit register, before each byte, is not modelled.
pub mod Start
use Prim.Native.Nat.{bit_and, bit_or}
use tinyrtos.Prelude.{
  ℕ, ◌-◌, ◌*◌, ◌/◌, ◌%◌, List, [], ◌∷◌, ◌++◌, Bool, true, not, bit_mask, ◌==◌, if◌then◌else◌,
}
use tinyrtos.Bsp.Led.{clear_mask}

-- rtosk_bsp_f756zg_usart3_write_char
abbrev pub usart3_write_char : ℕ → List ℕ
usart3_write_char c = c ∷ []

-- rtosk_bsp_f756zg_usart3_write_string, on a text without its NUL
unfoldable pub usart3_write_string : List ℕ → List ℕ
usart3_write_string [] = []
usart3_write_string (c ∷ s) =
    (if c == b'\n' then usart3_write_char b'\r' else [])
    ++ (usart3_write_char c ++ usart3_write_string s)

-- BSP_USART3_GPIO_TX and BSP_USART3_GPIO_RX
abbrev pub gpio_tx : ℕ
gpio_tx = 8

abbrev pub gpio_rx : ℕ
gpio_rx = 9

-- The masks of CMSIS that the functions below use: RCC_AHB1ENR_GPIODEN, RCC_APB1ENR_USART3EN,
-- USART_CR1_TE, USART_CR1_RE, USART_CR1_UE, USART_CR1_RXNEIE and USART_ISR_RXNE.
pub record Masks : Type 0 where
  pub gpioden : ℕ
  pub usart3en : ℕ
  pub te : ℕ
  pub re : ℕ
  pub ue : ℕ
  pub rxneie : ℕ
  pub rxne : ℕ

-- RCC->AHB1ENR, RCC->APB1ENR, the registers of GPIOD and of USART3, whether USART3_IRQn is enabled, and
-- RTOSK_BSP_F756ZG_USART3_INIT.
pub record UsartPort : Type 0 where
  pub ahb1enr : ℕ
  pub apb1enr : ℕ
  pub moder : ℕ
  pub afr_1 : ℕ
  pub cr1 : ℕ
  pub cr2 : ℕ
  pub cr3 : ℕ
  pub brr : ℕ
  pub irq_enabled : Bool
  pub usart3_init : Bool

-- `r &= ~(mask << shift); r |= value << shift;`
abbrev pub put_field : (mask value shift r : ℕ) → ℕ
put_field mask value shift r =
    bit_or (clear_mask r (mask * bit_mask shift)) (value * bit_mask shift)

-- rtosk_bsp_f756zg_usart3_init; a `baud` of 0 is a division by 0
unfoldable pub usart3_start : Masks → (system_core_clock baud : ℕ) → UsartPort → UsartPort
usart3_start m system_core_clock baud p = if p.usart3_init then p else record p {
  ahb1enr = bit_or p.ahb1enr m.gpioden;
  apb1enr = bit_or p.apb1enr m.usart3en;
  moder = put_field 3 2 (gpio_rx * 2) (put_field 3 2 (gpio_tx * 2) p.moder);
  afr_1 = put_field 15 7 ((gpio_rx - 8) * 4) (put_field 15 7 ((gpio_tx - 8) * 4) p.afr_1);
  cr1 = bit_or (bit_or (bit_or 0 m.te) m.re) m.ue;
  cr2 = 0;
  cr3 = 0;
  brr = system_core_clock / baud;
  usart3_init = true;
}

-- rtosk_bsp_f756zg_uart_enable_rx_interrupt
unfoldable pub enable_rx_interrupt : Masks → UsartPort → UsartPort
enable_rx_interrupt m p = record p { cr1 = bit_or p.cr1 m.rxneie; irq_enabled = true }

-- USART3_IRQHandler, on what it reads of ISR and RDR; `callback` is
-- rtosk_bsp_f756zg_usart3_rx_callback_from_isr of the program, on its state.
unfoldable pub usart3_irq_handler {ℓ} :
    {S : Type ℓ} → Masks → (callback : ℕ → S → S) → (isr rdr : ℕ) → S → S
usart3_irq_handler m callback isr rdr s =
    if not (bit_and isr m.rxne == 0) then callback (rdr % 256) s else s
