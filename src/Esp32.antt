-- ===== src/Esp32.antt =====
-- main/src/adapter/esp32: the adapters that run on the device, over ESP-IDF and FreeRTOS.
pub mod Wifi
pub mod Board
pub mod Queue
pub mod Semaphore
pub mod Task
