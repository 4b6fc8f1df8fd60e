-- ===== src/Bsp.antt =====
-- The board support of src/bsp/f756zg. Registers are 32-bit words.
pub mod Usart3
pub mod Led
