-- ===== src/Gui.antt =====
-- PyBootchartWidget of gui.py: the chart in its scrolled window. What GTK keeps outside of the widget
-- comes in with the events, and what the widget asks of GTK goes out as signals.
pub mod Widget
pub mod Scroll
pub mod Events
pub mod Window
